-- ===== src/Xenviron/Tests.antt =====
-- An environment of two variables, of which one name begins with the other.
use fb_adb.Prelude.{ℕ, ◌≡◌, refl, Bool, true, none, some, List, [], ◌∷◌, codes}
use fb_adb.Outcome.{ok, fault}
use fb_adb.Xenviron.{Xenviron, xenviron_get, xenviron_set, xenviron_unset}
use fb_adb.Xenviron.Entries.{Var, Names}
use fb_adb.Xenviron.Assign.{of_vars, set-get, set_clobbers}
use fb_adb.Xenviron.Remove.{unset_overreads}

abbrev enough : ℕ → Bool
enough sz = true

abbrev vars : List Var
vars = (codes "PATHS", codes "x") ∷ (codes "LANG", codes "C=c") ∷ []

vars-Names : Names vars
vars-Names = ((refl, (refl, (refl, (refl, (refl, tt))))), ((refl, (refl, (refl, (refl, tt)))), tt))

set-get_example :
    (xe : Xenviron) × (xenviron_set enough enough none (of_vars vars) (codes "LANG") (codes "de")
      ≡ ok xe)
    × (xenviron_get xe (codes "LANG") ≡ ok (some (codes "de")))
set-get_example =
    set-get enough enough none vars (codes "LANG") (codes "de") vars-Names
      (refl, (refl, (refl, (refl, tt)))) (λ _. refl) (λ _. refl)

set_clobbers_example :
    (xe : Xenviron) × (xenviron_get (of_vars ((codes "PA", codes "x") ∷ [])) (codes "PA")
      ≡ ok (some (codes "x")))
    × (xenviron_set enough enough none
          (of_vars ((codes "PA", codes "x") ∷ []))
          (codes "PAT")
          (codes "y")
        ≡ ok xe)
    × (xenviron_get xe (codes "PA") ≡ ok none)
set_clobbers_example =
    set_clobbers enough enough none (codes "PA") (codes "x") [] b'T' [] (codes "y")
      ((refl, (refl, tt)), tt) (refl, (refl, (refl, tt))) refl (λ _. refl) (λ _. refl)

unset_overreads_example : xenviron_unset enough enough none (of_vars vars) (codes "LANG") ≡ fault
unset_overreads_example = unset_overreads enough enough none vars (codes "LANG") vars-Names
