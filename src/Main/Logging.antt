-- ===== src/Main/Logging.antt =====
-- `_configure_logging`: the levels of the loggers. What importing the SDK does to them is an
-- argument; the handlers, and the level of the root, are the logging library's.
pub mod Visible
use gm_validator.Prelude.{
  ℕ, Bool, true, false, Option, none, some, List, [], ◌∷◌, ◌++◌, map, ◌≡◌, ◌≢◌, ◌⊎◌, refl, sym, ap,
  ◌∙◌, inl, inr, arith, Bool-cases, Option-cases, ◌==◌, ◌&&◌, ◌||◌, if◌then◌else◌, some_injective,
}
use mathlib.Core.List.{append_assoc}
use mathlib.Core.Path.{subst}
use gm_validator.Prelude.Text.{codes}
use gm_validator.Config.Parsers.{Text, same_text}
use gm_validator.Mirror.Names.{after_prefix}

pub data Level : Type 0 where
  notset debug info warning error critical : Level

-- `logging.root.manager.loggerDict`, with the level of each logger.
abbrev pub Loggers : Type 0
Loggers = List (Text × Level)

-- A logger that is not there has no level of its own.
abbrev pub level_of : Text → Loggers → Level
level_of name [] = notset
level_of name ((n, l) ∷ loggers) = if same_text n name then l else level_of name loggers

-- `logging.getLogger(name).setLevel(level)`
unfoldable pub set_level : Text → Level → Loggers → Loggers
set_level name level [] = (name, level) ∷ []
set_level name level ((n, l) ∷ loggers) =
    if same_text n name then (n, level) ∷ loggers else (n, l) ∷ set_level name level loggers

-- `text.startswith(prefix)`
abbrev pub starts_with : Text → Text → Bool
starts_with prefix text = elim (after_prefix prefix text) [ none ↦ false | some rest ↦ true ]

abbrev pub package_name : Text
package_name = codes "gm_validator"

abbrev pub is_own : Text → Bool
is_own name = same_text name package_name || starts_with (codes "gm_validator.") name

-- The loop over the names that are there.
unfoldable pub reset_own : List Text → Loggers → Loggers
unfolding set_level
reset_own [] loggers = loggers
reset_own (name ∷ names) loggers =
    reset_own names (if is_own name then set_level name notset loggers else loggers)

abbrev pub names_of : Loggers → List Text
names_of = map λ (l : Text × Level). l.0

-- `_configure_logging`, with what `import bittensor` does
unfoldable pub configure_logging : (Loggers → Loggers) → Loggers → Loggers
unfolding reset_own
configure_logging import_bittensor loggers =
    let imported = import_bittensor loggers in
    set_level package_name info (reset_own (names_of imported) imported)

-- The level that a logger goes by is its own, or that of the nearest logger above it that has one:
-- those above `a.b.c` are `a.b`, `a` and the root.
abbrev pub own_or : Level → Level → Level
own_or inherited notset = inherited
own_or inherited level = level

abbrev pub effective_from : Level → Text → Text → Loggers → Level
effective_from inherited done [] loggers = own_or inherited (level_of done loggers)
effective_from inherited done (c ∷ rest) loggers =
    if c == b'.'
    then effective_from (own_or inherited (level_of done loggers)) (done ++ (c ∷ [])) rest loggers
    else effective_from inherited (done ++ (c ∷ [])) rest loggers

-- `getEffectiveLevel()` of a logger, by its name and the level of the root
unfoldable pub effective_level : Level → Text → Loggers → Level
effective_level root name loggers = effective_from root [] name loggers

pub same_text-eq : (a b : Text) → same_text a b ≡ true → a ≡ b
same_text-eq [] [] h = refl
same_text-eq [] (b ∷ bs) h = cc
same_text-eq (a ∷ as') [] h = cc
same_text-eq (a ∷ as') (b ∷ bs) h = elim (Bool-cases (a == b)) [
  | inl e ↦ let head : a ≡ b = ground arith in let tail = same_text-eq as' bs (rw e at h) in cc
  | inr e ↦ cc (rw e at h)
]

same_text_refl : (a : Text) → same_text a a ≡ true
same_text_refl [] = refl
same_text_refl (a ∷ as') = let e : (a == a) ≡ true = ground arith in rw e (same_text_refl as')

pub level_of-set_self :
    (name : Text) (l : Level) (loggers : Loggers) → level_of name (set_level name l loggers) ≡ l
unfolding set_level
level_of-set_self name l [] = rw (same_text_refl name) refl
level_of-set_self name l ((n, k) ∷ loggers) = elim (Bool-cases (same_text n name)) [
  | inl e ↦ rw (e, e) refl
  | inr e ↦ rw (e, e) (level_of-set_self name l loggers)
]

pub level_of-set_ne :
    (name other : Text) (l : Level) (loggers : Loggers)
    → same_text name other ≡ false
    → level_of other (set_level name l loggers) ≡ level_of other loggers
unfolding set_level
level_of-set_ne name other l [] h = rw h refl
level_of-set_ne name other l ((n, k) ∷ loggers) h = elim (Bool-cases (same_text n name)) [
  | inl e ↦
      let apart = subst (λ t. same_text t other ≡ false) (sym (same_text-eq n name e)) h in
      rw (e, apart) refl
  | inr e ↦ elim (Bool-cases (same_text n other)) [
    | inl f ↦ rw (e, f) refl
    | inr f ↦ rw (e, f) (level_of-set_ne name other l loggers h)
  ]
]

-- Resetting a logger leaves the ones without a level without one.
set_level-notset :
    (name other : Text) (loggers : Loggers)
    → level_of other loggers ≡ notset
    → level_of other (set_level name notset loggers) ≡ notset
set_level-notset name other loggers h = elim (Bool-cases (same_text name other)) [
  | inl e ↦
      subst (λ t. level_of t (set_level name notset loggers) ≡ notset) (same_text-eq name other e)
        (level_of-set_self name notset loggers)
  | inr e ↦ level_of-set_ne name other notset loggers e ∙ h
]

reset_own-notset :
    (names : List Text) (other : Text) (loggers : Loggers)
    → level_of other loggers ≡ notset
    → level_of other (reset_own names loggers) ≡ notset
unfolding reset_own
reset_own-notset [] other loggers h = h
reset_own-notset (name ∷ names) other loggers h = elim (Bool-cases (is_own name)) [
  | inl e ↦ rw e (
      reset_own-notset names other (set_level name notset loggers)
        (set_level-notset name other loggers h))
  | inr e ↦ rw e (reset_own-notset names other loggers h)
]

abbrev named : Text → List Text → Bool
named name [] = false
named name (n ∷ names) = same_text n name || named name names

not_named :
    (name : Text) (loggers : Loggers)
    → named name (names_of loggers) ≡ false
    → level_of name loggers ≡ notset
not_named name [] h = refl
not_named name ((n, l) ∷ loggers) h = elim (Bool-cases (same_text n name)) [
  | inl e ↦ cc (rw e at h)
  | inr e ↦ rw e (not_named name loggers (rw e at h))
]

reset_own-named :
    (names : List Text) (name : Text) (loggers : Loggers)
    → is_own name ≡ true
    → named name names ≡ true
    → level_of name (reset_own names loggers) ≡ notset
unfolding reset_own
reset_own-named [] name loggers own h = cc
reset_own-named (n ∷ names) name loggers own h = elim (Bool-cases (same_text n name)) [
  | inl e ↦
      let same = same_text-eq n name e in
      rw (subst (λ t. is_own t ≡ true) (sym same) own) (
        reset_own-notset names name (set_level n notset loggers) (
          subst (λ t. level_of t (set_level n notset loggers) ≡ notset) same
            (level_of-set_self n notset loggers)))
  | inr e ↦ reset_own-named names name _ own (rw e at h)
]

-- After the loop no logger of the package has a level.
pub reset_own_all :
    (name : Text) (loggers : Loggers)
    → is_own name ≡ true
    → level_of name (reset_own (names_of loggers) loggers) ≡ notset
reset_own_all name loggers own = elim (Bool-cases (named name (names_of loggers))) [
  | inl e ↦ reset_own-named (names_of loggers) name loggers own e
  | inr e ↦ reset_own-notset (names_of loggers) name loggers (not_named name loggers e)
]
