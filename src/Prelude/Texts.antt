-- ===== src/Prelude/Texts.antt =====
-- Text as the list of its UTF-16 code units, which is what a JavaScript string is: indices and
-- lengths count the same units. The literals of the program are ASCII.
use Prim.Native.Nat.{ℕ, zero, suc, ◌+◌, ◌-◌, ◌/◌, ◌%◌}
use Prim.Native.Char.{code}
use Prim.Native.String.{String}
use mathlib.Core.Path.{◌≡◌, refl}
use mathlib.Core.Logic.{◌↔◌}
use mathlib.Core.Bool.{Bool, true, false, ◌&&◌, ◌||◌}
use mathlib.Core.Option.{Option, none, some}
use mathlib.Core.List.{List, [], ◌∷◌, ◌++◌, map, reverse}
use native.Mathlib.Omega.{arith}
use evm_contract_auditor_hon.Prelude.Tests.{leb, ltb, ◌==◌, if◌then◌else◌}
use evm_contract_auditor_hon.Prelude.Lists.{length, take, drop}

abbrev pub Text : Type 0
Text = List ℕ

abbrev pub codes : String → Text
codes String.[] = []
codes (String.◌∷◌ c s) = code c ∷ codes s

-- `a === b`
unfoldable pub text_eq : Text → Text → Bool
text_eq [] [] = true
text_eq (a ∷ s) (b ∷ t) = a == b && text_eq s t
text_eq _ _ = false

pub text_eq_sound : (s t : Text) → text_eq s t ≡ true → s ≡ t
unfolding text_eq
text_eq_sound [] [] h = refl
text_eq_sound [] (b ∷ t) h = cc
text_eq_sound (a ∷ s) [] h = cc
text_eq_sound (a ∷ s) (b ∷ t) h = ground (arith, text_eq_sound s t)

pub text_eq_refl : (s : Text) → text_eq s s ≡ true
unfolding text_eq
text_eq_refl [] = refl
text_eq_refl (a ∷ s) = ground (arith, text_eq_refl s)

pub text_eq_iff : (s t : Text) → (text_eq s t ≡ true) ↔ (s ≡ t)
text_eq_iff s t = (text_eq_sound s t, λ e. rw e (text_eq_refl t))

-- `s.startsWith(p)`
unfoldable pub starts_with : Text → Text → Bool
starts_with [] s = true
starts_with (a ∷ p) [] = false
starts_with (a ∷ p) (b ∷ s) = a == b && starts_with p s

-- `s.indexOf(p)`, with `none` for -1
unfoldable pub index_of : Text → Text → Option ℕ
index_of p [] = if starts_with p [] then some 0 else none
index_of p (a ∷ s) =
    if starts_with p (a ∷ s)
    then some 0
    else elim (index_of p s) [ none ↦ none | some i ↦ some (suc i) ]

-- `s.includes(p)`
unfoldable pub includes : Text → Text → Bool
unfolding index_of starts_with
includes p s = elim (index_of p s) [ none ↦ false | some i ↦ true ]

-- `s.slice(from, to)` for indices that are not negative
abbrev pub slice : ℕ → ℕ → Text → Text
slice from to s = take (to - from) (drop from s)

-- `s.endsWith(p)`
unfoldable pub ends_with : Text → Text → Bool
unfolding text_eq
ends_with p s = leb (length p) (length s) && text_eq (drop (length s - length p) s) p

-- `toLowerCase` and `toUpperCase` on ASCII letters; other units are left alone.
unfoldable pub lower : ℕ → ℕ
lower c = if leb b'A' c && leb c b'Z' then c + 32 else c

unfoldable pub to_lower : Text → Text
unfolding lower
to_lower s = map lower s

unfoldable pub upper : ℕ → ℕ
upper c = if leb b'a' c && leb c b'z' then c - 32 else c

unfoldable pub to_upper : Text → Text
unfolding upper
to_upper s = map upper s

-- The ASCII white space that `trim` removes: tab, line feed, VT, FF, carriage return, space.
unfoldable pub is_space : ℕ → Bool
is_space c = c == 32 || (leb 9 c && leb c 13)

unfoldable pub trim_start : Text → Text
unfolding is_space
trim_start [] = []
trim_start (c ∷ s) = if is_space c then trim_start s else c ∷ s

-- `s.trim()`
unfoldable pub trim : Text → Text
unfolding trim_start
trim s = reverse (trim_start (reverse (trim_start s)))

-- `parts.join(sep)`
unfoldable pub join : Text → List Text → Text
join sep [] = []
join sep (t ∷ []) = t
join sep (t ∷ u ∷ r) = t ++ (sep ++ join sep (u ∷ r))

-- The digit of a value below 36, and the value of a digit; any other unit has the value 36.
unfoldable pub digit : ℕ → ℕ
digit d = if ltb d 10 then 48 + d else 87 + d

unfoldable pub digit_value : ℕ → ℕ
digit_value c =
    if leb b'0' c && leb c b'9'
    then c - 48
    else if leb b'a' c && leb c b'z'
    then c - 87
    else if leb b'A' c && leb c b'Z'
    then c - 55
    else 36

unfoldable pub digits_from : ℕ → ℕ → ℕ → Text → Text
digits_from radix zero n acc = acc
digits_from radix (suc f) n acc =
    let rest = digits_from radix f (n / radix) (digit (n % radix) ∷ acc) in
    if ltb n radix then digit n ∷ acc else rest

-- `n.toString(radix)`: `n + 1` rounds print every digit.
unfoldable pub to_string : ℕ → ℕ → Text
unfolding digits_from digit
to_string radix n = digits_from radix (suc n) n []

-- `String(n)`
abbrev pub decimal : ℕ → Text
decimal n = to_string 10 n

pub starts_with_of_take : (p s : Text) → take (length p) s ≡ p → starts_with p s ≡ true
unfolding starts_with
starts_with_of_take [] s h = refl
starts_with_of_take (a ∷ p) [] h = cc
starts_with_of_take (a ∷ p) (b ∷ s) h = ground (arith, starts_with_of_take p s)
