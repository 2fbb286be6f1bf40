-- ===== src/Panel/Abi.antt =====
-- panel/src/server/sim/abi.ts: the encoder of call arguments, as hexadecimal text. `utf8` is
-- `TextEncoder`; a numeric value is taken after `BigInt` has read it.
pub mod Lengths
pub mod Layout
use evm_contract_auditor_hon.Prelude.{
  ℕ, zero, suc, ◌+◌, ◌-◌, List, [], ◌∷◌, ◌++◌, Bool, true, false, ◌&&◌, ◌||◌, Text, codes, length,
  drop, slice_last, all, leb, ◌==◌, if◌then◌else◌,
}
use Prim.Native.Nat.{◌*◌, ◌/◌, ◌%◌}
use evm_contract_auditor_hon.Prelude.Int.{ℤ, pos, negsuc}
use evm_contract_auditor_hon.Prelude.Texts.{starts_with, to_lower, to_string, digit}
use evm_contract_auditor_hon.Utils.Retry.{Result, ok, err}
use evm_contract_auditor_hon.Utils.Checks.{◌>>=◌, ◌>>◌, require}

mutual
  pub data ArgValue : Type 0 where
    address : Text → ArgValue
    uint : ℤ → ArgValue
    bytes : Text → ArgValue
    bool : Bool → ArgValue
    string : Text → ArgValue
    bytes32 : Text → ArgValue
    addresses : List Text → ArgValue
    uints : List ℤ → ArgValue
    bytes_list : List Text → ArgValue
    tuple : ArgValues → ArgValue

  pub data ArgValues : Type 0 where
    end_args : ArgValues
    arg : ArgValue → ArgValues → ArgValues

abbrev pub zeros : ℕ → Text
zeros zero = []
zeros (suc n) = b'0' ∷ zeros n

-- `hex.replace(/^0x/, "")`
unfoldable pub without_prefix : Text → Text
unfolding starts_with
without_prefix hex = if starts_with (codes "0x") hex then drop 2 hex else hex

unfoldable pub pad_left64 : Text → Text
unfolding slice_last
pad_left64 hex =
    let clean = without_prefix hex in
    if leb 64 (length clean) then slice_last 64 clean else zeros (64 - length clean) ++ clean

-- `hex.padEnd(n, "0")`
abbrev pub pad_end : ℕ → Text → Text
pad_end n hex = hex ++ zeros (n - length hex)

-- `Math.ceil(lengthBytes / 32) * 32 * 2` for `units / 2` bytes.
unfoldable pub pad_right64 : Text → ℕ → Text
pad_right64 hex units = pad_end ((units + 63) / 64 * 64) hex

abbrev pub hex_of : ℕ → Text
hex_of n = to_string 16 n

unfoldable pub uint_hex : ℤ → Text
uint_hex (pos n) = pad_left64 (hex_of n)
uint_hex (negsuc n) = pad_left64 (codes "-" ++ hex_of (n + 1))

abbrev is_hex_unit : ℕ → Bool
is_hex_unit c = (leb b'0' c && leb c b'9') || (leb b'a' c && leb c b'f')

unfoldable pub address_hex : Text → Result Text
unfolding to_lower
address_hex a = do
  require
      (length (to_lower (without_prefix a)) == 40 && all is_hex_unit (to_lower (without_prefix a)))
      (codes "invalid address: " ++ a)
  ok (pad_left64 (to_lower (without_prefix a)))

-- `(units / 2).toString(16)`
unfoldable pub half_hex : ℕ → Text
half_hex units = if units % 2 == 0 then hex_of (units / 2) else hex_of (units / 2) ++ codes ".8"

-- The length and the data of a value of bytes.
unfoldable pub bytes_tail : Text → Text
bytes_tail b =
    let clean = without_prefix b in
    pad_left64 (half_hex (length clean)) ++ pad_right64 clean (length clean)

-- `b.toString(16).padStart(2, "0")` for each byte, which is below 256.
abbrev pub hex_bytes : List ℕ → Text
hex_bytes [] = []
hex_bytes (b ∷ bs) = digit (b / 16) ∷ digit (b % 16) ∷ hex_bytes bs

unfoldable pub address_words : List Text → Result Text
address_words [] = ok []
address_words (a ∷ ads) = do word ← address_hex a; words ← address_words ads; ok (word ++ words)

abbrev pub uint_words : List ℤ → Text
uint_words [] = []
uint_words (v ∷ vs) = uint_hex v ++ uint_words vs

-- The offsets of the inner values, and the values.
abbrev pub inner_offsets : ℕ → List Text → Text
inner_offsets offset [] = []
inner_offsets offset (b ∷ bs) =
    pad_left64 (hex_of offset) ++ inner_offsets (offset + length (bytes_tail b) / 2) bs

abbrev pub inner_tails : List Text → Text
inner_tails [] = []
inner_tails (b ∷ bs) = bytes_tail b ++ inner_tails bs

unfoldable mutual
  pub is_dynamic : ArgValue → Bool
  is_dynamic (bytes b) = true
  is_dynamic (string s) = true
  is_dynamic (addresses ads) = true
  is_dynamic (uints vs) = true
  is_dynamic (bytes_list bs) = true
  is_dynamic (tuple values) = some_dynamic values
  is_dynamic (address a) = false
  is_dynamic (uint v) = false
  is_dynamic (bool b) = false
  is_dynamic (bytes32 b) = false

  pub some_dynamic : ArgValues → Bool
  some_dynamic end_args = false
  some_dynamic (arg a rest) = is_dynamic a || some_dynamic rest

-- A value that is not dynamic; of a tuple, `abiEncode([v])` for each value.
unfoldable mutual
  pub encode_static : ArgValue → Result Text
  encode_static (address a) = address_hex a
  encode_static (uint v) = ok (uint_hex v)
  encode_static (bool b) = ok (pad_left64 (if b then codes "1" else codes "0"))
  encode_static (bytes32 b) = ok (pad_left64 (without_prefix b))
  encode_static (tuple values) = encode_in_place values
  encode_static _ = err (codes "abiEncode: static encoding not supported")

  pub encode_in_place : ArgValues → Result Text
  encode_in_place end_args = ok []
  encode_in_place (arg a rest) =
      encode_static a >>= λ word. encode_in_place rest >>= λ words. ok (word ++ words)

-- The two texts that the loop of `abiEncode` collects.
pub record Parts : Type 0 where
  pub head : Text
  pub tail : Text

abbrev pub count_args : ArgValues → ℕ
count_args end_args = 0
count_args (arg a rest) = count_args rest + 1

abbrev pub joined : Parts → Text
joined parts = parts.head ++ parts.tail

module _ (utf8 : Text → List ℕ) where
  unfoldable pub string_tail : Text → Text
  string_tail s =
      pad_left64 (hex_of (length (utf8 s)))
      ++ (if length (utf8 s) == 0
          then []
          else pad_right64 (hex_bytes (utf8 s)) (2 * length (utf8 s)))

  unfoldable mutual
    pub encode_tail : ArgValue → Result Text
    encode_tail (bytes b) = ok (bytes_tail b)
    encode_tail (string s) = ok (string_tail s)
    encode_tail (addresses ads) =
        address_words ads >>= λ words. ok (pad_left64 (hex_of (length ads)) ++ words)
    encode_tail (uints vs) = ok (pad_left64 (hex_of (length vs)) ++ uint_words vs)
    encode_tail (bytes_list bs) =
        ok (pad_left64 (hex_of (length bs)) ++ inner_offsets (length bs * 32) bs ++ inner_tails bs)
    encode_tail (tuple values) =
        encode_args values (count_args values * 32) >>= λ parts. ok (joined parts)
    encode_tail _ = err (codes "encodeTail unsupported")

    -- The loop of `abiEncode`, with `tailOffset`.
    pub encode_args : ArgValues → ℕ → Result Parts
    encode_args end_args offset = ok (record { head = []; tail = [] })
    encode_args (arg a rest) offset = elim (is_dynamic a) [
      | true ↦ encode_tail a >>= λ encoded.
          encode_args rest (offset + length encoded / 2) >>= λ parts.
          ok (record {
            head = pad_left64 (hex_of offset) ++ parts.head;
            tail = encoded ++ parts.tail;
          })
      | false ↦ encode_static a >>= λ word. encode_args rest offset >>= λ parts.
          ok (record { head = word ++ parts.head; tail = parts.tail })
    ]

  unfoldable pub abi_encode : ArgValues → Result Text
  abi_encode args = encode_args args (count_args args * 32) >>= λ parts. ok (joined parts)

  unfoldable pub build_abi_calldata : Text → ArgValues → Result Text
  unfolding starts_with to_lower
  build_abi_calldata selector args =
      let sel = without_prefix selector in
      require (length sel == 8 && all is_hex_unit (to_lower sel))
        (codes "invalid selector: " ++ selector)
      >> (abi_encode args >>= λ encoded. ok (codes "0x" ++ to_lower sel ++ encoded))
