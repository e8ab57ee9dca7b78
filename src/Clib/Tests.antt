-- ===== src/Clib/Tests.antt =====
-- Small runs of the string functions, and the theorems at them.
use jnix.Prelude.{ℕ, ◌≡◌, refl, ◌↔◌, List, [], ◌∷◌, ◌++◌, ok}
use jnix.Clib.Strings.{strcmp, strcspn, strncpy}
use jnix.Clib.Strings.Compare.{strcmp_lem}

-- "dev" and "det"
abbrev dev : List ℕ
dev = 100 ∷ 101 ∷ 118 ∷ []

abbrev det : List ℕ
det = 100 ∷ 101 ∷ 116 ∷ []

strcspn_test : strcspn (100 ∷ 47 ∷ 0 ∷ []) (47 ∷ 0 ∷ []) 0 ≡ ok 1
unfolding strcspn
strcspn_test = refl

strncpy_test : strncpy (9 ∷ 9 ∷ 9 ∷ 9 ∷ []) (100 ∷ 0 ∷ []) 3 ≡ ok (100 ∷ 0 ∷ 0 ∷ 9 ∷ [])
unfolding strncpy
strncpy_test = refl

strcmp_lem_example :
    (n : ℕ) × (strcmp (dev ++ (0 ∷ 7 ∷ [])) (det ++ (0 ∷ [])) ≡ ok n) × ((n ≡ 0) ↔ (dev ≡ det))
strcmp_lem_example = strcmp_lem dev det (7 ∷ []) [] refl refl
