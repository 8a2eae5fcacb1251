-- ===== src/Config/Laws.antt =====
-- The metrics address: what is read, and how what an operator writes is read.
use Prim.Native.String.{String}
use mathlib.Core.Path.{subst}
use mathlib.Core.List.{reverse, reverse-append, reverse-reverse, reverse-cons, append_assoc}
use gm_validator.Prelude.{
  ℕ, ◌≤◌, Bool, true, false, Option, none, some, [], ◌∷◌, ◌++◌, ◌≡◌, ◌≢◌, refl, sym, ap, ◌∙◌, ◌==◌,
  leb, inl, inr, arith, Bool-cases, Option-cases, ◌&&◌, some_injective,
}
use gm_validator.Prelude.Int.{ℤ, pos, negsuc}
use gm_validator.Prelude.Text.{is_space, strip, is_blank, int_of}
use gm_validator.Prelude.Print.{
  print_nat, AllDigits, AllDigits-reverse, lstrip-IsTight, strip-append-print_nat,
  print_nat-AllDigits, int_of-print_nat,
}
use gm_validator.Errors.{ok, ok_injective}
use gm_validator.Config.Parsers.{
  Text, Environ, get_env, split_at, turned, rpartition, any_host, host_port, check_port, bind_of,
  metrics_bind_env,
}

split_at-append :
    (front back : Text)
    → AllDigits front
    → split_at b':' (front ++ (b':' ∷ back)) ≡ some (front, back)
split_at-append [] back h = refl
split_at-append (c ∷ front) back (d, h) =
    let other : (c == b':') ≡ false = ground arith in rw (other, split_at-append front back h) refl

-- The text `host:port`, reversed.
reverse_address :
    (host port : Text) → reverse (host ++ (b':' ∷ port)) ≡ reverse port ++ (b':' ∷ reverse host)
reverse_address host port =
    reverse-append host (b':' ∷ port)
    ∙ ap (λ t. t ++ reverse host) (reverse-cons b':' port)
    ∙ append_assoc (reverse port) (b':' ∷ []) (reverse host)

rpartition_address :
    (host port : Text)
    → AllDigits port
    → rpartition b':' (host ++ (b':' ∷ port)) ≡ some (host, port)
rpartition_address host port h =
    ap (λ t. turned (split_at b':' t)) (reverse_address host port)
    ∙ ap turned (split_at-append (reverse port) (reverse host) (AllDigits-reverse port h))
    ∙ ap (λ t. some (t, reverse (reverse port))) (reverse-reverse host)
    ∙ ap (λ t. some (host, t)) (reverse-reverse port)

-- A text without a colon has no two parts.
split_at-digits : (cs : Text) → AllDigits cs → split_at b':' cs ≡ none
split_at-digits [] h = refl
split_at-digits (c ∷ cs) (d, h) =
    let other : (c == b':') ≡ false = ground arith in rw (other, split_at-digits cs h) refl

check_port_fits :
    (host : Text) (n : ℕ) → 1 ≤ n → n ≤ 65535 → check_port host (some (pos n)) ≡ ok (some (host, n))
check_port_fits host n l h =
    let low : leb 1 n ≡ true = ground arith in
    let high : leb n 65535 ≡ true = ground arith in rw (low, high) refl

check_port_inv :
    (host : Text) (port : Option ℤ) (address : Text × ℕ)
    → check_port host port ≡ ok (some address)
    → (address.0 ≡ host) × (1 ≤ address.1) × (address.1 ≤ 65535)
check_port_inv host none address h = cc
check_port_inv host (some (negsuc n)) address h = cc
check_port_inv host (some (pos n)) address h = elim (Bool-cases (leb 1 n && leb n 65535)) [
  | inr out ↦ cc (rw out at h)
  | inl within ↦
      let same = some_injective (ok_injective (rw within at h)) in
      let number = ap (λ a. a.1) same in
      let fits : (1 ≤ n) × (n ≤ 65535) = ground arith in
      (sym (ap (λ a. a.0) same), omega (arith, number, fits.0), omega (arith, number, fits.1))
]

bind_of_address :
    (c : ℕ) (host : Text) (n : ℕ)
    → 1 ≤ n
    → n ≤ 65535
    → bind_of ((c ∷ host) ++ (b':' ∷ print_nat n)) ≡ ok (some (c ∷ host, n))
unfolding bind_of
bind_of_address c host n l h =
    ap
      (λ parts.
        let (host', port) = host_port ((c ∷ host) ++ (b':' ∷ print_nat n)) parts in
        check_port host' (int_of port))
      (rpartition_address (c ∷ host) (print_nat n) (print_nat-AllDigits n))
    ∙ ap (check_port (c ∷ host)) (int_of-print_nat n)
    ∙ check_port_fits (c ∷ host) n l h

bind_of_port : (n : ℕ) → 1 ≤ n → n ≤ 65535 → bind_of (print_nat n) ≡ ok (some (any_host, n))
unfolding bind_of
bind_of_port n l h =
    ap
      (λ parts.
        let (host', port) = host_port (print_nat n) (turned parts) in
        check_port host' (int_of port))
      (split_at-digits (reverse (print_nat n))
        (AllDigits-reverse (print_nat n) (print_nat-AllDigits n)))
    ∙ ap (check_port any_host) (int_of-print_nat n)
    ∙ check_port_fits any_host n l h

-- A value that is set and not blank is stripped and read.
metrics_bind_env_set :
    (env : Environ) (name : String) (value : Text)
    → get_env env name ≡ some value
    → is_blank value ≡ false
    → metrics_bind_env env name ≡ bind_of (strip value)
unfolding metrics_bind_env
metrics_bind_env_set env name value found set = simp (metrics_bind_env, found, set)

not_blank : (c : ℕ) (cs : Text) → is_space c ≡ false → is_blank (c ∷ cs) ≡ false
not_blank c cs h =
    subst (λ (t : Text). elim t as (λ _. Bool) [ [] ↦ true | x ∷ rest ↦ false ] ≡ false)
      (sym (lstrip-IsTight (c ∷ cs) h)) refl

-- An address that is written as a host, a colon and a port is read back as these: the host is any
-- non-empty text that does not begin with a white space, colons in it included, and the port is from
-- 1 to 65535.
pub metrics_bind_env-address :
    (env : Environ) (name : String) (c : ℕ) (host : Text) (n : ℕ)
    → get_env env name ≡ some ((c ∷ host) ++ (b':' ∷ print_nat n))
    → is_space c ≡ false
    → 1 ≤ n
    → n ≤ 65535
    → metrics_bind_env env name ≡ ok (some (c ∷ host, n))
metrics_bind_env-address env name c host n found tight l h =
    let value = (c ∷ host) ++ (b':' ∷ print_nat n) in
    let regroup = append_assoc (c ∷ host) (b':' ∷ []) (print_nat n) in
    let kept : strip value ≡ value =
      subst (λ t. strip t ≡ t) regroup
        (strip-append-print_nat ((c ∷ host) ++ (b':' ∷ [])) n tight) in
    metrics_bind_env_set env name value found (not_blank c (host ++ (b':' ∷ print_nat n)) tight)
    ∙ ap bind_of kept
    ∙ bind_of_address c host n l h

host_port-ne_nil : (value : Text) (parts : _) → (host_port value parts).0 ≢ []
host_port-ne_nil value none h = cc
host_port-ne_nil value (some ([], port)) h = cc
host_port-ne_nil value (some (c ∷ host, port)) h = cc

bind_of_inv :
    (value : Text) (address : Text × ℕ)
    → bind_of value ≡ ok (some address)
    → (address.0 ≢ []) × (1 ≤ address.1) × (address.1 ≤ 65535)
unfolding bind_of
bind_of_inv value address h =
    let parts = rpartition b':' value in
    let (host, low, high) =
      check_port_inv (host_port value parts).0 (int_of (host_port value parts).1) address h in
    (λ e. host_port-ne_nil value parts (sym host ∙ e), low, high)

-- Whatever is read as an address has a host, and a port from 1 to 65535.
pub metrics_bind_env_bounds :
    (env : Environ) (name : String) (address : Text × ℕ)
    → metrics_bind_env env name ≡ ok (some address)
    → (address.0 ≢ []) × (1 ≤ address.1) × (address.1 ≤ 65535)
unfolding metrics_bind_env
metrics_bind_env_bounds env name address h = elim (Option-cases (get_env env name)) [
  | inl unset ↦ cc (rw (metrics_bind_env, unset) at h)
  | inr (value, found) ↦ elim (Bool-cases (is_blank value)) [
    | inl blank ↦ cc (rw (metrics_bind_env, found, blank) at h)
    | inr set ↦
        bind_of_inv (strip value) address (sym (metrics_bind_env_set env name value found set) ∙ h)
  ]
]
