-- ===== src/Proxy/Eip1167.antt =====
-- Minimal proxies: what `detectEip1167` of runner/src/proxy.ts finds. Agree compares it with the
-- pattern of runner/src/bytecode_validation.ts.
pub mod Agree
use mathlib.Core.Path.{subst}
use evm_contract_auditor_hon.Prelude.{
  ℕ, zero, suc, ◌≡◌, refl, sym, ◌∙◌, ap, [], ◌∷◌, ◌++◌, Bool, true, ◌&&◌, some, Text, codes, length,
  take, drop, All, arith, text_eq, text_eq_iff, length-drop, All-append, All-drop,
}
use evm_contract_auditor_hon.Prelude.Texts.{
  starts_with, starts_with_of_take, ends_with, slice, to_lower, lower, is_space, includes,
}
use evm_contract_auditor_hon.Types.Config.{RunnerConfig}
use evm_contract_auditor_hon.Utils.Hex.{
  hex_prefix, strip_hex_prefix, IsPlain, strip_hex_prefix_of_plain, normalize_hex_of_plain,
  to_lower_of_plain,
}
use evm_contract_auditor_hon.Utils.Retry.{ok}
use evm_contract_auditor_hon.World.{World, Env, pure}
use evm_contract_auditor_hon.Bytecode.{matches_eip1167}
use evm_contract_auditor_hon.Proxy.{
  detect_eip1167, eip1167_prefix, eip1167_suffix, resolve_proxy, resolve_from, minimal_proxy,
}

-- Code whose digits begin with the prefix, go on for forty units and end with the suffix.
pub record IsShell (raw : Text) : Type 0 where
  front : take 20 raw ≡ eip1167_prefix
  middle : length (take 40 (drop 20 raw)) ≡ 40
  back : drop 60 raw ≡ eip1167_suffix

pub length-IsShell : (raw : Text) → IsShell raw → length raw ≡ 90
unfolding eip1167_suffix
length-IsShell raw h =
    let n : length (drop 60 raw) ≡ 30 = ap length h.back in omega (arith, length-drop 60 raw)

starts_with_of_IsShell : (raw : Text) → IsShell raw → starts_with eip1167_prefix raw ≡ true
unfolding eip1167_prefix
starts_with_of_IsShell raw h = starts_with_of_take _ raw h.front

ends_with_of_IsShell : (raw : Text) → IsShell raw → ends_with eip1167_suffix raw ≡ true
unfolding ends_with eip1167_suffix
ends_with_of_IsShell raw h = rw (length-IsShell raw h) (rw h.back refl)

detect_of_IsShell :
    (raw : Text)
    → All IsPlain raw
    → IsShell raw
    → detect_eip1167 (hex_prefix ++ raw) ≡ some (hex_prefix ++ slice 20 60 raw)
unfolding detect_eip1167
detect_of_IsShell raw plain h = rw (strip_hex_prefix_of_plain raw plain) (
    rw (length-IsShell raw h) (rw (starts_with_of_IsShell raw h) (rw (ends_with_of_IsShell raw h))))

take-append-exact : (s t : Text) → take (length s) (s ++ t) ≡ s
take-append-exact [] [] = refl
take-append-exact [] (c ∷ t) = refl
take-append-exact (c ∷ s) t = ap (λ r. c ∷ r) (take-append-exact s t)

drop-append-exact : (s t : Text) → drop (length s) (s ++ t) ≡ t
drop-append-exact [] t = refl
drop-append-exact (c ∷ s) t = drop-append-exact s t

-- The code of a minimal proxy for an address of forty plain units.
abbrev pub shell_of : Text → Text
shell_of address = eip1167_prefix ++ (address ++ eip1167_suffix)

module _ (address : Text) (whole : length address ≡ 40) where
  take-address : take 40 (address ++ eip1167_suffix) ≡ address
  take-address =
      subst (λ n. take n (address ++ eip1167_suffix) ≡ address) whole
        (take-append-exact address eip1167_suffix)

  pub shell_of-IsShell : IsShell (shell_of address)
  unfolding eip1167_prefix
  shell_of-IsShell = record {
    front = refl;
    middle = ap length take-address ∙ whole;
    back =
        subst (λ n. drop n (address ++ eip1167_suffix) ≡ eip1167_suffix) whole
          (drop-append-exact address eip1167_suffix);
  }

  slice-shell_of : slice 20 60 (shell_of address) ≡ address
  unfolding eip1167_prefix
  slice-shell_of = take-address

prefix-All : All IsPlain eip1167_prefix
unfolding eip1167_prefix is_space lower
prefix-All = ground arith

suffix-All : All IsPlain eip1167_suffix
unfolding eip1167_suffix is_space lower
suffix-All = ground arith

shell_of-All : (address : Text) → All IsPlain address → All IsPlain (shell_of address)
shell_of-All address plain =
    All-append IsPlain eip1167_prefix _ prefix-All
      (All-append IsPlain address eip1167_suffix plain suffix-All)

-- The address in the code of a minimal proxy is found, for every address of forty lower-case units
-- without white space.
pub detect_eip1167-shell_of :
    (address : Text)
    → length address ≡ 40
    → All IsPlain address
    → detect_eip1167 (hex_prefix ++ shell_of address) ≡ some (hex_prefix ++ address)
detect_eip1167-shell_of address whole plain =
    detect_of_IsShell (shell_of address) (shell_of-All address plain)
      (shell_of-IsShell address whole)
    ∙ ap (λ a. some (hex_prefix ++ a)) (slice-shell_of address whole)

-- `resolveProxy` resolves a minimal proxy to the address in its code, and asks the node nothing:
-- the world is left as it was.
pub resolve_proxy-shell_of :
    (config : RunnerConfig) (env : Env) (address self : Text) (n : ℕ) (w : World)
    → length address ≡ 40
    → All IsPlain address
    → (d : Bool) × (resolve_proxy config env self (hex_prefix ++ shell_of address) n w
        ≡ (ok (minimal_proxy d (hex_prefix ++ address)), w))
unfolding resolve_proxy resolve_from pure
resolve_proxy-shell_of config env address self n w whole plain =
    let normal = normalize_hex_of_plain (shell_of address) (shell_of-All address plain) in
    (
      includes (codes "f4") (strip_hex_prefix (hex_prefix ++ shell_of address)),
      rw normal (rw (detect_eip1167-shell_of address whole plain)),
    )

and_parts :
    (a b c d : Bool) → (a && b && c && d) ≡ true → (a ≡ true) × (b ≡ true) × (c ≡ true) × (d ≡ true)
and_parts a b c d h = ground arith

All-take : (P : ℕ → Type 0) (n : ℕ) (s : Text) → All P s → All P (take n s)
All-take P zero s h = tt
All-take P (suc n) [] h = tt
All-take P (suc n) (c ∷ s) (p, h) = (p, All-take P n s h)

to_lower_plain : (s : Text) → All IsPlain s → to_lower s ≡ s
unfolding to_lower
to_lower_plain s h = to_lower_of_plain s h

eq_of_lower : (s t : Text) → All IsPlain s → text_eq (to_lower s) t ≡ true → s ≡ t
eq_of_lower s t plain h = sym (to_lower_plain s plain) ∙ (text_eq_iff (to_lower s) t).0 h

matches-IsShell : (raw : Text) → All IsPlain raw → matches_eip1167 raw ≡ true → IsShell raw
unfolding matches_eip1167 eip1167_prefix eip1167_suffix
matches-IsShell raw plain h =
    let (first, size, _, last) = and_parts _ _ _ _ h in
    record {
      front = eq_of_lower (take 20 raw) _ (All-take IsPlain 20 raw plain) first;
      middle = ground arith;
      back = eq_of_lower (drop 60 raw) _ (All-drop IsPlain 60 raw plain) last;
    }
