-- ===== src/Net/Arp/Start.antt =====
-- The address map of net/arp.c after `arp_init`.
use jnix.Prelude.{
  ℕ, zero, suc, ◌%◌, ◌<◌, ◌≡◌, ◌≢◌, refl, sym, subst, ap, none, some, ◌∷◌, arith, ◌∙◌,
  get_elem?_of_lt, get_elem?, replicate,
}
use mathlib.Core.Option.{none-ne-some, some-injective}
use jnix.Net.Arp.{Bucket, empty_bucket, arp_init}
use jnix.Net.Arp.Chains.{entries, find, count, BucketIsValid}
use jnix.Net.Arp.Lookup.{IsValid, bucket_of, lookup}

get_elem?-replicate {ℓ} :
    {A : Type ℓ} → (n : ℕ) (x y : A) (i : ℕ) → get_elem? (replicate n x) i ≡ some y → x ≡ y
get_elem?-replicate zero x y i h = absurd (none-ne-some y h)
get_elem?-replicate (suc n) x y zero h = some-injective x y h
get_elem?-replicate (suc n) x y (suc i) h = get_elem?-replicate n x y i h

empty_valid : BucketIsValid empty_bucket
unfolding count
empty_valid = record { once = λ ip. ground arith; nonzero = refl; empty = λ h. refl }

count-empty_bucket : (q : ℕ) → q ≢ 0 → count q (empty_bucket.head ∷ empty_bucket.next) ≡ 0
unfolding count
count-empty_bucket q nz = ground arith

no_entry :
    (i : ℕ) (b : Bucket) (q : ℕ)
    → get_elem? arp_init.list i ≡ some b
    → q ≢ 0
    → ¬ (0 < count q (b.head ∷ b.next))
unfolding arp_init
no_entry i b q at nz there =
    let here =
      subst (λ (d : Bucket). 0 < count q (d.head ∷ d.next))
        (sym (get_elem?-replicate 10 empty_bucket b i at)) there in
    let none_there = count-empty_bucket q nz in omega arith

lookup-arp_init : (q : ℕ) → lookup arp_init q ≡ none
unfolding arp_init lookup entries find
lookup-arp_init q =
    let (b, e) = get_elem?_of_lt (replicate 10 empty_bucket) (q % 10) (omega arith) in
    let same = get_elem?-replicate 10 empty_bucket b (q % 10) e in
    let here : bucket_of arp_init q ≡ some empty_bucket = e ∙ ap some (sym same) in
    rw (here, lookup) refl

-- `arp_init` leaves a well-formed map that holds no address.
pub arp_init_lem : IsValid arp_init × ((q : ℕ) → lookup arp_init q ≡ none)
unfolding arp_init
arp_init_lem = (
  record {
    sized = refl;
    positive = omega arith;
    buckets =
        λ i b at. subst BucketIsValid (get_elem?-replicate 10 empty_bucket b i at) empty_valid;
    placed = λ i b q at nz there. absurd (no_entry i b q at nz there);
  },
  λ q. lookup-arp_init q,
)
