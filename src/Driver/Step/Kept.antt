-- ===== src/Driver/Step/Kept.antt =====
-- Parts of the driver that a step leaves alone.
use aiohub_plugin_dsh_worksp.Prelude.{
  Bool, true, false, if◌then◌else◌, ◌≡◌, refl, ◌∙◌, Result, ok, err,
}
use aiohub_plugin_dsh_worksp.Files.{Files, Io}
use aiohub_plugin_dsh_worksp.Driver.State.{Driver, MainError}
use aiohub_plugin_dsh_worksp.Driver.Step.{Step, lift, asks, on_disk, continue, ◌>>=◌}

pub record Kept {Sup X A : Type 0} (f : Driver Sup → X) (step : Step Sup A) : Type 0 where
  pub kept : (d : Driver Sup) → f (step d).1 ≡ f d

module _ {Sup X : Type 0} (f : Driver Sup → X) where
  module _ {A : Type 0} where
    pub lift-Kept : (r : Result MainError A) → Kept f (lift r)
    lift-Kept r = record { kept = λ d. refl }

    pub asks-Kept : (g : Driver Sup → Result MainError A) → Kept f (asks g)
    asks-Kept g = record { kept = λ d. refl }

    pub if-Kept : (b : Bool) {x y : Step Sup A} → Kept f x → Kept f y → Kept f (if b then x else y)
    if-Kept true h k = h
    if-Kept false h k = k

    pub on_disk-Kept :
        ((d : Driver Sup) (disk : Files) → f (record d { disk = disk }) ≡ f d)
        → (op : Io A) → Kept f (on_disk op)
    unfolding on_disk
    on_disk-Kept free op = record { kept = λ d. free d (op d.disk).1 }

  module _ {A B : Type 0} where
    continue-Kept :
        (r : Result MainError A) (k : A → Step Sup B) (d : Driver Sup)
        → ((a : A) → Kept f (k a))
        → f (continue r k d).1 ≡ f d
    continue-Kept (ok a) k d h = (h a).kept d
    continue-Kept (err e) k d h = refl

    pub bind-Kept :
        {m : Step Sup A} {k : A → Step Sup B}
        → Kept f m
        → ((a : A) → Kept f (k a))
        → Kept f (m >>= k)
    bind-Kept {m = m} {k = k} g h = record {
      kept = λ d. continue-Kept (m d).0 k (m d).1 h ∙ g.kept d;
    }
