-- ===== src/Main/Logging/Visible.antt =====
-- The loggers of the package by the level they go by.
use gm_validator.Prelude.{
  true, some, [], ◌∷◌, ◌++◌, ◌≡◌, refl, sym, ◌∙◌, inl, inr, arith, Bool-cases, Option-cases, ◌==◌,
  some_injective,
}
use mathlib.Core.Path.{subst}
use gm_validator.Prelude.Text.{codes}
use gm_validator.Config.Parsers.{Text, same_text}
use gm_validator.Mirror.Names.{after_prefix}
use gm_validator.Main.Logging.{
  Level, notset, info, Loggers, level_of, package_name, starts_with, is_own, names_of, reset_own,
  configure_logging, effective_from, effective_level, same_text-eq, level_of-set_self,
  level_of-set_ne, reset_own_all,
}

after_prefix-append :
    (prefix text rest : Text) → after_prefix prefix text ≡ some rest → text ≡ prefix ++ rest
after_prefix-append [] text rest h = some_injective h
after_prefix-append (p ∷ prefix) [] rest h = cc
after_prefix-append (p ∷ prefix) (c ∷ text) rest h = elim (Bool-cases (p == c)) [
  | inl e ↦
      let head : c ≡ p = ground arith in
      let tail = after_prefix-append prefix text rest (rw e at h) in cc
  | inr e ↦ cc (rw e at h)
]

starts_with-append :
    (prefix text : Text) → starts_with prefix text ≡ true → (rest : Text) × (text ≡ prefix ++ rest)
starts_with-append prefix text h = elim (Option-cases (after_prefix prefix text)) [
  | inl e ↦ cc (rw (starts_with, e) at h)
  | inr (rest, e) ↦ (rest, after_prefix-append prefix text rest e)
]

abbrev below : Text → Text
below name = codes "gm_validator." ++ name

module _ (import_bittensor : Loggers → Loggers) (loggers : Loggers) where
  package_level : level_of package_name (configure_logging import_bittensor loggers) ≡ info
  unfolding configure_logging
  package_level =
      let imported = import_bittensor loggers in
      level_of-set_self package_name info (reset_own (names_of imported) imported)

  below_level :
      (name : Text) → level_of (below name) (configure_logging import_bittensor loggers) ≡ notset
  unfolding configure_logging
  below_level name =
      let imported = import_bittensor loggers in
      level_of-set_ne package_name (below name) info (reset_own (names_of imported) imported) refl
      ∙ reset_own_all (below name) imported refl

  below_scan :
      (done rest : Text)
      → effective_from info (below done) rest (configure_logging import_bittensor loggers) ≡ info
  below_scan done [] = rw (below_level done) refl
  below_scan done (c ∷ rest) = elim (Bool-cases (c == b'.')) [
    | inl e ↦ rw (e, below_level done) (below_scan (done ++ (c ∷ [])) rest)
    | inr e ↦ rw e (below_scan (done ++ (c ∷ [])) rest)
  ]

  package_visible :
      (root : Level)
      → effective_level root package_name (configure_logging import_bittensor loggers) ≡ info
  unfolding effective_level
  package_visible root = rw package_level refl

  below_visible :
      (root : Level) (name : Text)
      → effective_level root (below name) (configure_logging import_bittensor loggers) ≡ info
  unfolding effective_level
  below_visible root name = rw package_level (below_scan [] name)

  -- Whatever the import of the SDK does to the levels, after `_configure_logging` the package's logger
  -- and every logger below it go by INFO, those included that are made later.
  pub configure_logging-info :
      (root : Level) (name : Text)
      → is_own name ≡ true
      → effective_level root name (configure_logging import_bittensor loggers) ≡ info
  configure_logging-info root name own = elim (Bool-cases (same_text name package_name)) [
    | inl e ↦
        subst (λ t. effective_level root t (configure_logging import_bittensor loggers) ≡ info)
          (sym (same_text-eq name package_name e)) (package_visible root)
    | inr e ↦
        let (rest, split) = starts_with-append (codes "gm_validator.") name (rw e at own) in
        subst (λ t. effective_level root t (configure_logging import_bittensor loggers) ≡ info)
          (sym split) (below_visible root rest)
  ]
