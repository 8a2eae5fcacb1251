-- ===== src/Scoring/Weights/Known.antt =====
-- Whose uids stand in the vector: miners found in the lookup, and the subnet owner.
use Prim.Native.String.{String}
use gm_validator.Prelude.{
  ℕ, suc, ◌≤◌, Option, none, some, List, [], ◌∷◌, length, All, ◌≡◌, ◌⊎◌, refl, sym, ap, inl, inr,
  arith, Bool-cases, ◌==◌,
}
use mathlib.Core.Path.{subst}
use gm_validator.Prelude.Dict.{Dict, lookup}
use gm_validator.Economics.Epoch.{MinerWeight, is_positive}
use gm_validator.Economics.Water.{Entry}
use gm_validator.Economics.Water.Floor.{uids_of}
use gm_validator.Economics.Normalize.{Share, positive_shares}
use gm_validator.Economics.Normalize.Budget.{IsPayout, share_uids, with_burn}
use gm_validator.Scoring.Rows.{Scores}
use gm_validator.Scoring.Weights.{uids_by_index, miner_pairs}

abbrev pub AllSome : (ℕ → Type 0) → List (Option ℕ) → Type 0
AllSome P [] = Unit
AllSome P (none ∷ uids) = AllSome P uids
AllSome P (some uid ∷ uids) = P uid × AllSome P uids

-- The uid of some hotkey of the lookup.
abbrev pub IsLookedUp : Dict ℕ → ℕ → Type 0
IsLookedUp uid_lookup uid = (id : String) × (lookup id uid_lookup ≡ some uid)

pub AllSome-cons :
    (P : ℕ → Type 0) (uid : Option ℕ) (uids : List (Option ℕ))
    → ((u : ℕ) → uid ≡ some u → P u)
    → AllSome P uids
    → AllSome P (uid ∷ uids)
AllSome-cons P none uids h hs = hs
AllSome-cons P (some u) uids h hs = (h u refl, hs)

uids_by_index-AllSome :
    (uid_lookup : Dict ℕ) (scores : Scores)
    → AllSome (IsLookedUp uid_lookup) (uids_by_index uid_lookup scores)
unfolding uids_by_index
uids_by_index-AllSome uid_lookup [] = tt
uids_by_index-AllSome uid_lookup ((id, s) ∷ scores) =
    AllSome-cons (IsLookedUp uid_lookup) (lookup id uid_lookup) (uids_by_index uid_lookup scores)
      (λ u e. (id, e)) (uids_by_index-AllSome uid_lookup scores)

module _ (P : ℕ → Type 0) where
  pub miner_pairs-All :
      (ws : List MinerWeight) (uids : List (Option ℕ))
      → AllSome P uids
      → All P (share_uids (miner_pairs ws uids))
  unfolding miner_pairs
  miner_pairs-All [] uids h = tt
  miner_pairs-All (w ∷ ws) [] h = tt
  miner_pairs-All (w ∷ ws) (none ∷ uids) h = miner_pairs-All ws uids h
  miner_pairs-All (w ∷ ws) (some uid ∷ uids) (h, hs) = (h, miner_pairs-All ws uids hs)

  pub positive_shares-All :
      (ss : List Share) → All P (share_uids ss) → All P (share_uids (positive_shares ss))
  unfolding positive_shares
  positive_shares-All [] h = tt
  positive_shares-All ((uid, w) ∷ ss) (h, hs) = elim (Bool-cases (is_positive w)) [
    | inl e ↦ rw e (h, positive_shares-All ss hs)
    | inr e ↦ rw e (positive_shares-All ss hs)
  ]

  pub with_burn-All : (burn : ℕ) (us : List ℕ) → P burn → All P us → All P (with_burn burn us)
  with_burn-All burn [] p h = (p, tt)
  with_burn-All burn (u ∷ us) p (h, hs) = elim (Bool-cases (u == burn)) [
    | inl e ↦ rw e (h, hs)
    | inr e ↦ rw e (h, with_burn-All burn us p hs)
  ]

  pub payout-All :
      (burn : ℕ) (ss : List Share) (es : List Entry)
      → IsPayout burn ss es
      → P burn
      → All P (share_uids ss)
      → All P (uids_of es)
  payout-All burn ss es (_, inl (inl e)) p h = subst (All P) (sym e) h
  payout-All burn ss es (_, inl (inr e)) p h =
      subst (All P) (sym e) (with_burn-All burn (share_uids ss) p h)
  payout-All burn ss es (_, inr (e, _)) p h = subst (All P) (sym e) (p, tt)

abbrev pub IsPayable : Dict ℕ → ℕ → ℕ → Type 0
IsPayable uid_lookup owner uid = IsLookedUp uid_lookup uid ⊎ (uid ≡ owner)

AllSome-imp :
    (P Q : ℕ → Type 0) (uids : List (Option ℕ))
    → ((u : ℕ) → P u → Q u)
    → AllSome P uids
    → AllSome Q uids
AllSome-imp P Q [] f h = tt
AllSome-imp P Q (none ∷ uids) f h = AllSome-imp P Q uids f h
AllSome-imp P Q (some u ∷ uids) f (h, hs) = (f u h, AllSome-imp P Q uids f hs)

pub payout-IsPayable :
    (uid_lookup : Dict ℕ) (scores : Scores) (owner : ℕ) (ws : List MinerWeight) (es : List Entry)
    → IsPayout owner (positive_shares (miner_pairs ws (uids_by_index uid_lookup scores))) es
    → All (IsPayable uid_lookup owner) (uids_of es)
payout-IsPayable uid_lookup scores owner ws es p =
    let Q = IsPayable uid_lookup owner in
    let uids = uids_by_index uid_lookup scores in
    payout-All Q owner (positive_shares (miner_pairs ws uids)) es p (inr refl) (
      positive_shares-All Q (miner_pairs ws uids) (
        miner_pairs-All Q ws uids (
          AllSome-imp (IsLookedUp uid_lookup) Q uids (λ u h. inl h)
            (uids_by_index-AllSome uid_lookup scores))))

pub length-uids_by_index :
    (uid_lookup : Dict ℕ) (scores : Scores)
    → length (uids_by_index uid_lookup scores) ≡ length scores
unfolding uids_by_index
length-uids_by_index uid_lookup [] = refl
length-uids_by_index uid_lookup (s ∷ scores) = ap suc (length-uids_by_index uid_lookup scores)

pub length-miner_pairs :
    (ws : List MinerWeight) (uids : List (Option ℕ)) → length (miner_pairs ws uids) ≤ length uids
unfolding miner_pairs
length-miner_pairs [] uids = omega arith
length-miner_pairs (w ∷ ws) [] = omega arith
length-miner_pairs (w ∷ ws) (none ∷ uids) = omega (arith, length-miner_pairs ws uids)
length-miner_pairs (w ∷ ws) (some uid ∷ uids) = omega (arith, length-miner_pairs ws uids)

pub length-positive_shares : (ss : List Share) → length (positive_shares ss) ≤ length ss
unfolding positive_shares
length-positive_shares [] = omega arith
length-positive_shares (s ∷ ss) = ground (arith, length-positive_shares ss)
