-- ===== src/Scoring/Weights/Distinct.antt =====
-- Repeated uids in the vector.
use Prim.Native.String.{String}
use gm_validator.Prelude.{
  ℕ, Option, none, some, List, [], ◌∷◌, All, ◌≡◌, ◌≢◌, refl, sym, ap, ◌∙◌, inl, inr, arith, ◌==◌,
  Bool-cases,
}
use mathlib.Core.Path.{subst}
use gm_validator.Prelude.Dict.{Dict, lookup, IsKeyed, OneToOne, missing_key}
use gm_validator.Decimal.{Decimal}
use gm_validator.Metrics.{Metrics}
use gm_validator.Errors.{ok}
use gm_validator.Summary.{EpochSummary}
use gm_validator.Economics.Epoch.{MinerWeight, is_positive}
use gm_validator.Economics.Water.{Entry}
use gm_validator.Economics.Water.Floor.{uids_of}
use gm_validator.Economics.Normalize.{Share, positive_shares}
use gm_validator.Economics.Normalize.Budget.{IsPayout, share_uids, with_burn}
use gm_validator.Scoring.Rows.{Scores}
use gm_validator.Scoring.Weights.{WeightVector, uids_by_index, miner_pairs, compute_weights}
use gm_validator.Scoring.Weights.Vector.{compute_weights-IsRouted}
use gm_validator.Scoring.Weights.Known.{
  AllSome, AllSome-cons, miner_pairs-All, positive_shares-All, with_burn-All,
}

abbrev Avoids : ℕ → List ℕ → Type 0
Avoids u = All λ (v : ℕ). v ≢ u

abbrev pub NoRepeat : List ℕ → Type 0
NoRepeat [] = Unit
NoRepeat (u ∷ us) = Avoids u us × NoRepeat us

-- The same of the uids that are there.
abbrev Apart : List (Option ℕ) → Type 0
Apart [] = Unit
Apart (none ∷ uids) = Apart uids
Apart (some u ∷ uids) = AllSome (λ (v : ℕ). v ≢ u) uids × Apart uids

uids_by_index-avoid :
    (uid_lookup : Dict ℕ) (id : String) (u : ℕ) (scores : Scores)
    → OneToOne uid_lookup
    → lookup id uid_lookup ≡ some u
    → lookup id scores ≡ none
    → AllSome (λ (v : ℕ). v ≢ u) (uids_by_index uid_lookup scores)
unfolding uids_by_index
uids_by_index-avoid uid_lookup id u [] o e n = tt
uids_by_index-avoid uid_lookup id u ((k, s) ∷ scores) o e n =
    let (other, rest) = missing_key id k s scores n in
    AllSome-cons (λ (v : ℕ). v ≢ u) (lookup k uid_lookup) (uids_by_index uid_lookup scores)
      (λ v f same. other (o k id u (f ∙ ap some same) e))
      (uids_by_index-avoid uid_lookup id u scores o e rest)

Apart-cons :
    (uid : Option ℕ) (uids : List (Option ℕ))
    → ((u : ℕ) → uid ≡ some u → AllSome (λ (v : ℕ). v ≢ u) uids)
    → Apart uids
    → Apart (uid ∷ uids)
Apart-cons none uids f h = h
Apart-cons (some u) uids f h = (f u refl, h)

uids_by_index-Apart :
    (uid_lookup : Dict ℕ) (scores : Scores)
    → OneToOne uid_lookup
    → IsKeyed scores
    → Apart (uids_by_index uid_lookup scores)
unfolding uids_by_index
uids_by_index-Apart uid_lookup [] o k = tt
uids_by_index-Apart uid_lookup ((id, s) ∷ scores) o (n, k) =
    Apart-cons (lookup id uid_lookup) (uids_by_index uid_lookup scores)
      (λ u e. uids_by_index-avoid uid_lookup id u scores o e n)
      (uids_by_index-Apart uid_lookup scores o k)

miner_pairs-NoRepeat :
    (ws : List MinerWeight) (uids : List (Option ℕ))
    → Apart uids
    → NoRepeat (share_uids (miner_pairs ws uids))
unfolding miner_pairs
miner_pairs-NoRepeat [] uids h = tt
miner_pairs-NoRepeat (w ∷ ws) [] h = tt
miner_pairs-NoRepeat (w ∷ ws) (none ∷ uids) h = miner_pairs-NoRepeat ws uids h
miner_pairs-NoRepeat (w ∷ ws) (some u ∷ uids) (a, h) =
    (miner_pairs-All (λ (v : ℕ). v ≢ u) ws uids a, miner_pairs-NoRepeat ws uids h)

positive_shares-NoRepeat :
    (ss : List Share) → NoRepeat (share_uids ss) → NoRepeat (share_uids (positive_shares ss))
unfolding positive_shares
positive_shares-NoRepeat [] h = tt
positive_shares-NoRepeat ((u, w) ∷ ss) (a, h) = elim (Bool-cases (is_positive w)) [
  | inl e ↦ rw e (positive_shares-All (λ (v : ℕ). v ≢ u) ss a, positive_shares-NoRepeat ss h)
  | inr e ↦ rw e (positive_shares-NoRepeat ss h)
]

with_burn-Avoids :
    (burn u : ℕ) (us : List ℕ) → burn ≢ u → Avoids u us → Avoids u (with_burn burn us)
with_burn-Avoids burn u us n a = with_burn-All (λ (v : ℕ). v ≢ u) burn us n a

with_burn-NoRepeat : (burn : ℕ) (us : List ℕ) → NoRepeat us → NoRepeat (with_burn burn us)
with_burn-NoRepeat burn [] h = (tt, tt)
with_burn-NoRepeat burn (u ∷ us) (a, h) = elim (Bool-cases (u == burn)) [
  | inl e ↦ rw e (a, h)
  | inr e ↦ rw e (with_burn-Avoids burn u us (ground arith) a, with_burn-NoRepeat burn us h)
]

payout-NoRepeat :
    (burn : ℕ) (ss : List Share) (es : List Entry)
    → IsPayout burn ss es
    → NoRepeat (share_uids ss)
    → NoRepeat (uids_of es)
payout-NoRepeat burn ss es (_, inl (inl e)) h = subst (λ us. NoRepeat us) (sym e) h
payout-NoRepeat burn ss es (_, inl (inr e)) h =
    subst (λ us. NoRepeat us) (sym e) (with_burn-NoRepeat burn (share_uids ss) h)
payout-NoRepeat burn ss es (_, inr (e, _)) h = subst (λ us. NoRepeat us) (sym e) (tt, tt)

-- If no hotkey has two scores and no two hotkeys of the lookup have one uid, no uid stands twice in
-- what `compute_weights` returns, the owner's included.
pub compute_weights-NoRepeat :
    (scores : Scores) (uid_lookup : Dict ℕ) (summary : EpochSummary) (owner : ℕ)
    (multiplier : Decimal) (m : Metrics) (v : WeightVector)
    → IsKeyed scores
    → OneToOne uid_lookup
    → (compute_weights scores uid_lookup summary owner multiplier m).1 ≡ ok v
    → NoRepeat v.uids
compute_weights-NoRepeat scores uid_lookup summary owner multiplier m v k o h =
    let (result, es, e, p) =
      compute_weights-IsRouted scores uid_lookup summary owner multiplier m v h in
    let uids = uids_by_index uid_lookup scores in
    let pairs = miner_pairs result.miners uids in
    subst (λ (v : WeightVector). NoRepeat v.uids) (sym e)
      (payout-NoRepeat owner (positive_shares pairs) es p (
        positive_shares-NoRepeat pairs
          (miner_pairs-NoRepeat result.miners uids (uids_by_index-Apart uid_lookup scores o k))))
