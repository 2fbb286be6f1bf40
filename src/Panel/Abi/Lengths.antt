-- ===== src/Panel/Abi/Lengths.antt =====
-- How long the parts of panel/src/server/sim/abi.ts are.
use mathlib.Core.Path.{subst}
use Prim.Native.Nat.{◌*◌, ◌/◌}
use evm_contract_auditor_hon.Prelude.{
  ℕ, zero, suc, ◌+◌, ◌-◌, ◌≡◌, refl, List, [], ◌∷◌, ◌++◌, Bool, true, false, Text, codes, length,
  length-append, length-drop, leb, leb→le, arith, Bool-cases, inl, inr, ◌⊎◌, ◌==◌,
}
use evm_contract_auditor_hon.Prelude.Int.{ℤ, pos, negsuc}
use evm_contract_auditor_hon.Prelude.Texts.{to_lower}
use evm_contract_auditor_hon.Utils.Retry.{Result, ok, ok-injective}
use evm_contract_auditor_hon.Utils.Checks.{◌>>=◌, >>=-ok, require-ok}
use evm_contract_auditor_hon.Panel.Abi.{
  ArgValue, address, uint, bytes, bool, string, bytes32, addresses, uints, bytes_list, tuple,
  ArgValues, end_args, arg, zeros, without_prefix, pad_left64, pad_right64, hex_of, uint_hex,
  address_hex, half_hex, bytes_tail, hex_bytes, address_words, uint_words, inner_offsets,
  inner_tails, is_dynamic, encode_static, encode_in_place, Parts, count_args, string_tail,
  encode_tail, encode_args,
}

-- The text is a whole number of bytes.
abbrev pub IsWhole : Text → Type 0
IsWhole t = (m : ℕ) × (length t ≡ 2 * m)

IsWhole-append : (s t : Text) → IsWhole s → IsWhole t → IsWhole (s ++ t)
IsWhole-append s t (m, h) (n, k) = (m + n, omega (arith, h, k, length-append s t))

length-zeros : (n : ℕ) → length (zeros n) ≡ n
length-zeros zero = refl
length-zeros (suc n) = omega (arith, length-zeros n)

pub length-pad_left64 : (hex : Text) → length (pad_left64 hex) ≡ 64
unfolding pad_left64
length-pad_left64 hex = elim (Bool-cases (leb 64 (length (without_prefix hex)))) [
  | inl long ↦ rw long (
      omega (
        arith,
        leb→le 64 (length (without_prefix hex)) long,
        length-drop (length (without_prefix hex) - 64) (without_prefix hex),
      ))
  | inr short ↦ rw short (
      ground (
        arith,
        length-append (zeros (64 - length (without_prefix hex))) (without_prefix hex),
        length-zeros (64 - length (without_prefix hex)),
      ))
]

IsWhole-pad_left64 : (hex : Text) → IsWhole (pad_left64 hex)
IsWhole-pad_left64 hex = (32, length-pad_left64 hex)

IsWhole-pad_right64 : (hex : Text) → IsWhole (pad_right64 hex (length hex))
unfolding pad_right64
IsWhole-pad_right64 hex = (
  (length hex + 63) / 64 * 32,
  omega (
    arith,
    length-append hex (zeros ((length hex + 63) / 64 * 64 - length hex)),
    length-zeros ((length hex + 63) / 64 * 64 - length hex),
  ),
)

length-hex_bytes : (bs : List ℕ) → length (hex_bytes bs) ≡ 2 * length bs
length-hex_bytes [] = refl
length-hex_bytes (b ∷ bs) = omega (arith, length-hex_bytes bs)

IsWhole-bytes_tail : (b : Text) → IsWhole (bytes_tail b)
unfolding bytes_tail
IsWhole-bytes_tail b =
    IsWhole-append (pad_left64 (half_hex (length (without_prefix b))))
      (pad_right64 (without_prefix b) (length (without_prefix b)))
      (IsWhole-pad_left64 (half_hex (length (without_prefix b))))
      (IsWhole-pad_right64 (without_prefix b))

IsWhole-uint_hex : (v : ℤ) → IsWhole (uint_hex v)
unfolding uint_hex
IsWhole-uint_hex (pos n) = IsWhole-pad_left64 (hex_of n)
IsWhole-uint_hex (negsuc n) = IsWhole-pad_left64 (codes "-" ++ hex_of (n + 1))

pub length-uint_hex : (v : ℤ) → length (uint_hex v) ≡ 64
unfolding uint_hex
length-uint_hex (pos n) = length-pad_left64 (hex_of n)
length-uint_hex (negsuc n) = length-pad_left64 (codes "-" ++ hex_of (n + 1))

pub address_hex-length : (a w : Text) → address_hex a ≡ ok w → length w ≡ 64
unfolding address_hex
address_hex-length a w h =
    let (_, e) = require-ok _ _ _ h in
    subst (λ t. length t ≡ 64) (ok-injective e) (length-pad_left64 (to_lower (without_prefix a)))

address_words-IsWhole : (ads : List Text) (t : Text) → address_words ads ≡ ok t → IsWhole t
unfolding address_words
address_words-IsWhole [] t h = subst IsWhole (ok-injective h) (0, refl)
address_words-IsWhole (a ∷ ads) t h =
    let (word, first, h₁) = >>=-ok (address_hex a) _ h in
    let (words, others, h₂) = >>=-ok (address_words ads) _ h₁ in
    subst IsWhole (ok-injective h₂) (
      IsWhole-append word words (32, address_hex-length a word first)
        (address_words-IsWhole ads words others))

IsWhole-uint_words : (vs : List ℤ) → IsWhole (uint_words vs)
IsWhole-uint_words [] = (0, refl)
IsWhole-uint_words (v ∷ vs) =
    IsWhole-append (uint_hex v) (uint_words vs) (IsWhole-uint_hex v) (IsWhole-uint_words vs)

IsWhole-inner_offsets : (offset : ℕ) (bs : List Text) → IsWhole (inner_offsets offset bs)
IsWhole-inner_offsets offset [] = (0, refl)
IsWhole-inner_offsets offset (b ∷ bs) =
    IsWhole-append (pad_left64 (hex_of offset))
      (inner_offsets (offset + length (bytes_tail b) / 2) bs) (IsWhole-pad_left64 (hex_of offset))
      (IsWhole-inner_offsets (offset + length (bytes_tail b) / 2) bs)

IsWhole-inner_tails : (bs : List Text) → IsWhole (inner_tails bs)
IsWhole-inner_tails [] = (0, refl)
IsWhole-inner_tails (b ∷ bs) =
    IsWhole-append (bytes_tail b) (inner_tails bs) (IsWhole-bytes_tail b) (IsWhole-inner_tails bs)

abbrev pub is_tuple : ArgValue → Bool
is_tuple (tuple values) = true
is_tuple _ = false

-- A static value that is no tuple is one word.
pub encode_static-length :
    (a : ArgValue) (t : Text) → is_tuple a ≡ false → encode_static a ≡ ok t → length t ≡ 64
unfolding encode_static
encode_static-length (address a) t k h = address_hex-length a t h
encode_static-length (uint v) t k h =
    subst (λ w. length w ≡ 64) (ok-injective h) (length-uint_hex v)
encode_static-length (bool b) t k h =
    subst (λ w. length w ≡ 64) (ok-injective h) (length-pad_left64 _)
encode_static-length (bytes32 b) t k h =
    subst (λ w. length w ≡ 64) (ok-injective h) (length-pad_left64 _)
encode_static-length (tuple values) t k h = cc
encode_static-length (bytes b) t k h = cc
encode_static-length (string b) t k h = cc
encode_static-length (addresses b) t k h = cc
encode_static-length (uints b) t k h = cc
encode_static-length (bytes_list b) t k h = cc

mutual
  unfolding encode_static

  encode_static-IsWhole : (a : ArgValue) (t : Text) → encode_static a ≡ ok t → IsWhole t
  encode_static-IsWhole (address a) t h = (32, address_hex-length a t h)
  encode_static-IsWhole (uint v) t h = subst IsWhole (ok-injective h) (IsWhole-uint_hex v)
  encode_static-IsWhole (bool b) t h = subst IsWhole (ok-injective h) (IsWhole-pad_left64 _)
  encode_static-IsWhole (bytes32 b) t h = subst IsWhole (ok-injective h) (IsWhole-pad_left64 _)
  encode_static-IsWhole (tuple values) t h = encode_in_place-IsWhole values t h
  encode_static-IsWhole (bytes b) t h = cc
  encode_static-IsWhole (string b) t h = cc
  encode_static-IsWhole (addresses b) t h = cc
  encode_static-IsWhole (uints b) t h = cc
  encode_static-IsWhole (bytes_list b) t h = cc

  encode_in_place-IsWhole :
      (values : ArgValues) (t : Text) → encode_in_place values ≡ ok t → IsWhole t
  encode_in_place-IsWhole end_args t h = subst IsWhole (ok-injective h) (0, refl)
  encode_in_place-IsWhole (arg a rest) t h =
      let (word, first, h₁) = >>=-ok (encode_static a) _ h in
      let (words, others, h₂) = >>=-ok (encode_in_place rest) _ h₁ in
      subst IsWhole (ok-injective h₂) (
        IsWhole-append word words (encode_static-IsWhole a word first)
          (encode_in_place-IsWhole rest words others))

module _ (utf8 : Text → List ℕ) where
  IsWhole-string_tail : (s : Text) → IsWhole (string_tail utf8 s)
  unfolding string_tail
  IsWhole-string_tail s =
      IsWhole-append (pad_left64 (hex_of (length (utf8 s)))) _
        (IsWhole-pad_left64 (hex_of (length (utf8 s))))
        (elim (Bool-cases (length (utf8 s) == 0)) [
          | inl empty ↦ rw empty (0, refl)
          | inr set ↦ rw set (
              subst (λ n. IsWhole (pad_right64 (hex_bytes (utf8 s)) n)) (length-hex_bytes (utf8 s))
                (IsWhole-pad_right64 (hex_bytes (utf8 s))))
        ])

  -- One round of the loop on a dynamic value, and on another.
  pub record IsPointed (a : ArgValue) (rest : ArgValues) (offset : ℕ) (parts : Parts) : Type 0 where
    pub dynamic : is_dynamic a ≡ true
    pub encoded : Text
    pub more : Parts
    pub this : encode_tail utf8 a ≡ ok encoded
    pub others : encode_args utf8 rest (offset + length encoded / 2) ≡ ok more
    pub result :
        record { head = pad_left64 (hex_of offset) ++ more.head; tail = encoded ++ more.tail }
        ≡ parts

  pub record IsInPlace (a : ArgValue) (rest : ArgValues) (offset : ℕ) (parts : Parts) : Type 0 where
    pub static : is_dynamic a ≡ false
    pub word : Text
    pub more : Parts
    pub this : encode_static a ≡ ok word
    pub others : encode_args utf8 rest offset ≡ ok more
    pub result : record { head = word ++ more.head; tail = more.tail } ≡ parts

  pub encode_args-cases :
      (a : ArgValue) (rest : ArgValues) (offset : ℕ) (parts : Parts)
      → encode_args utf8 (arg a rest) offset ≡ ok parts
      → IsPointed a rest offset parts ⊎ IsInPlace a rest offset parts
  unfolding encode_args
  encode_args-cases a rest offset parts h = elim (Bool-cases (is_dynamic a)) [
    | inl dynamic ↦
        let (encoded, this, h₁) = >>=-ok (encode_tail utf8 a) _ (subst round dynamic h) in
        let (more, others, h₂) =
          >>=-ok (encode_args utf8 rest (offset + length encoded / 2)) _ h₁ in
        inl (record {
          dynamic = dynamic;
          encoded = encoded;
          more = more;
          this = this;
          others = others;
          result = ok-injective h₂;
        })
    | inr static ↦
        let (word, this, h₁) = >>=-ok (encode_static a) _ (subst round static h) in
        let (more, others, h₂) = >>=-ok (encode_args utf8 rest offset) _ h₁ in
        inr (record {
          static = static;
          word = word;
          more = more;
          this = this;
          others = others;
          result = ok-injective h₂;
        })
  ]
    where
      round : Bool → Type 0
      round b =
          (elim b as (λ _. Result Parts) [
            | true ↦ encode_tail utf8 a >>= λ encoded.
                encode_args utf8 rest (offset + length encoded / 2) >>= λ more. ok (record {
                  head = pad_left64 (hex_of offset) ++ more.head;
                  tail = encoded ++ more.tail;
                })
            | false ↦ encode_static a >>= λ word. encode_args utf8 rest offset >>= λ more.
                ok (record { head = word ++ more.head; tail = more.tail })
          ])
          ≡ ok parts

  -- The head and the tail of the loop are whole.
  abbrev AreWhole : Parts → Type 0
  AreWhole parts = IsWhole parts.head × IsWhole parts.tail

  mutual
    unfolding encode_tail

    pub encode_tail-IsWhole : (a : ArgValue) (t : Text) → encode_tail utf8 a ≡ ok t → IsWhole t
    encode_tail-IsWhole (bytes b) t h = subst IsWhole (ok-injective h) (IsWhole-bytes_tail b)
    encode_tail-IsWhole (string s) t h = subst IsWhole (ok-injective h) (IsWhole-string_tail s)
    encode_tail-IsWhole (addresses ads) t h =
        let (words, e, h₁) = >>=-ok (address_words ads) _ h in
        subst IsWhole (ok-injective h₁) (
          IsWhole-append (pad_left64 (hex_of (length ads))) words
            (IsWhole-pad_left64 (hex_of (length ads))) (address_words-IsWhole ads words e))
    encode_tail-IsWhole (uints vs) t h = subst IsWhole (ok-injective h) (
        IsWhole-append (pad_left64 (hex_of (length vs))) (uint_words vs)
          (IsWhole-pad_left64 (hex_of (length vs))) (IsWhole-uint_words vs))
    encode_tail-IsWhole (bytes_list bs) t h = subst IsWhole (ok-injective h) (
        IsWhole-append (pad_left64 (hex_of (length bs)) ++ inner_offsets (length bs * 32) bs)
          (inner_tails bs)
          (IsWhole-append (pad_left64 (hex_of (length bs))) (inner_offsets (length bs * 32) bs)
            (IsWhole-pad_left64 (hex_of (length bs))) (IsWhole-inner_offsets (length bs * 32) bs))
          (IsWhole-inner_tails bs))
    encode_tail-IsWhole (tuple values) t h =
        let (parts, e, h₁) = >>=-ok (encode_args utf8 values (count_args values * 32)) _ h in
        let (head, tail) = encode_args-AreWhole values (count_args values * 32) parts e in
        subst IsWhole (ok-injective h₁) (IsWhole-append parts.head parts.tail head tail)
    encode_tail-IsWhole (address b) t h = cc
    encode_tail-IsWhole (uint b) t h = cc
    encode_tail-IsWhole (bool b) t h = cc
    encode_tail-IsWhole (bytes32 b) t h = cc

    encode_args-AreWhole :
        (args : ArgValues) (offset : ℕ) (parts : Parts)
        → encode_args utf8 args offset ≡ ok parts
        → AreWhole parts
    encode_args-AreWhole end_args offset parts h =
        subst AreWhole (ok-injective h) ((0, refl), (0, refl))
    encode_args-AreWhole (arg a rest) offset parts h =
        elim (encode_args-cases a rest offset parts h) [
          | inl k ↦
              let (head, tail) =
                encode_args-AreWhole rest (offset + length k.encoded / 2) k.more k.others in
              subst AreWhole k.result (
                IsWhole-append (pad_left64 (hex_of offset)) k.more.head
                    (IsWhole-pad_left64 (hex_of offset)) head,
                IsWhole-append k.encoded k.more.tail (encode_tail-IsWhole a k.encoded k.this) tail,
              )
          | inr k ↦
              let (head, tail) = encode_args-AreWhole rest offset k.more k.others in
              subst AreWhole k.result (
                IsWhole-append k.word k.more.head (encode_static-IsWhole a k.word k.this) head,
                tail,
              )
        ]
