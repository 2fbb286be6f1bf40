-- ===== src/Panel/Abi/Layout.antt =====
-- Where panel/src/server/sim/abi.ts puts the values that are not in place.
use mathlib.Core.Path.{subst}
use mathlib.Core.List.{append_assoc}
use Prim.Native.Nat.{◌*◌, ◌/◌}
use evm_contract_auditor_hon.Prelude.{
  ℕ, zero, suc, ◌+◌, ◌≡◌, refl, sym, ap, drop, ◌∙◌, List, [], ◌++◌, Option, none, some, not, ◌||◌,
  take, true, false, Text, length, length-append, drop, arith, inl, inr,
}
use evm_contract_auditor_hon.Utils.Retry.{ok, ok-injective}
use evm_contract_auditor_hon.Utils.Checks.{>>=-ok}
use evm_contract_auditor_hon.Panel.Abi.{
  ArgValue, ArgValues, end_args, arg, pad_left64, hex_of, is_dynamic, encode_static, Parts,
  count_args, encode_tail, encode_args, abi_encode,
}
use evm_contract_auditor_hon.Panel.EnvStore.Texts.{drop-length, take-length}
use evm_contract_auditor_hon.Panel.Abi.Lengths.{
  length-pad_left64, is_tuple, encode_static-length, encode_tail-IsWhole, encode_args-cases,
}

abbrev pub nth : ℕ → ArgValues → Option ArgValue
nth k end_args = none
nth zero (arg a rest) = some a
nth (suc k) (arg a rest) = nth k rest

-- No value of the arguments is a static tuple, which takes more than one word.
abbrev pub AllOneWord : ArgValues → Type 0
AllOneWord end_args = Unit
AllOneWord (arg a rest) = (is_dynamic a || not (is_tuple a) ≡ true) × AllOneWord rest

module _ (utf8 : Text → List ℕ) where
  -- The value is the k-th of the arguments: its word has the offset, and the text is `from` bytes
  -- into the tail.
  record IsPlaced (k : ℕ) (a : ArgValue) (offset : ℕ) (parts : Parts) : Type 0 where
    encoded : Text
    from : ℕ
    head_before : Text
    head_after : Text
    tail_before : Text
    tail_after : Text
    this : encode_tail utf8 a ≡ ok encoded
    word_at : length head_before ≡ 64 * k
    head : parts.head ≡ head_before ++ (pad_left64 (hex_of (offset + from)) ++ head_after)
    text_at : length tail_before ≡ 2 * from
    tail : parts.tail ≡ tail_before ++ (encoded ++ tail_after)

  static-length :
      (a : ArgValue) (w : Text)
      → is_dynamic a || not (is_tuple a) ≡ true
      → is_dynamic a ≡ false
      → encode_static a ≡ ok w
      → length w ≡ 64
  static-length a w one static h = encode_static-length a w (ground arith) h

  encode_args-head :
      (args : ArgValues) (offset : ℕ) (parts : Parts)
      → AllOneWord args
      → encode_args utf8 args offset ≡ ok parts
      → length parts.head ≡ 64 * count_args args
  unfolding encode_args
  encode_args-head end_args offset parts one h =
      subst (λ p. length p.head ≡ 0) (ok-injective h) refl
  encode_args-head (arg a rest) offset parts (first, one) h =
      elim (encode_args-cases utf8 a rest offset parts h) [
        | inl k ↦
            let ih = encode_args-head rest (offset + length k.encoded / 2) k.more one k.others in
            subst (λ p. length p.head ≡ 64 * count_args (arg a rest)) k.result
              (omega (
                arith,
                ih,
                length-pad_left64 (hex_of offset),
                length-append (pad_left64 (hex_of offset)) k.more.head,
              ))
        | inr k ↦
            let ih = encode_args-head rest offset k.more one k.others in
            subst (λ p. length p.head ≡ 64 * count_args (arg a rest)) k.result
              (omega (
                arith,
                ih,
                static-length a k.word first k.static k.this,
                length-append k.word k.more.head,
              ))
      ]

  some_injective : {a b : ArgValue} → some a ≡ some b → a ≡ b
  some_injective h = cc

  plus_zero : (n : ℕ) → n ≡ n + 0
  plus_zero n = omega arith

  plus_assoc : (a b c : ℕ) → a + b + c ≡ a + (b + c)
  plus_assoc a b c = omega arith

  encode_args-IsPlaced :
      (k : ℕ) (args : ArgValues) (a : ArgValue) (offset : ℕ) (parts : Parts)
      → AllOneWord args
      → nth k args ≡ some a
      → is_dynamic a ≡ true
      → encode_args utf8 args offset ≡ ok parts
      → IsPlaced k a offset parts
  encode_args-IsPlaced k end_args a offset parts one there dynamic h = cc
  encode_args-IsPlaced zero (arg b rest) a offset parts (first, one) there dynamic h =
      elim (encode_args-cases utf8 b rest offset parts h) [
        | inl r ↦ subst (IsPlaced 0 a offset) r.result (record {
          encoded = r.encoded;
          from = 0;
          head_before = [];
          head_after = r.more.head;
          tail_before = [];
          tail_after = r.more.tail;
          this = subst (λ v. encode_tail utf8 v ≡ ok r.encoded) (some_injective there) r.this;
          word_at = omega arith;
          head = ap (λ n. pad_left64 (hex_of n) ++ r.more.head) (plus_zero offset);
          text_at = omega arith;
          tail = refl;
        })
        | inr r ↦ cc (subst (λ v. is_dynamic v ≡ false) (some_injective there) r.static)
      ]
  encode_args-IsPlaced (suc k) (arg b rest) a offset parts (first, one) there dynamic h =
      elim (encode_args-cases utf8 b rest offset parts h) [
        | inl r ↦
            let p =
              encode_args-IsPlaced k rest a (offset + length r.encoded / 2) r.more one there dynamic
                r.others in
            let (m, whole) = encode_tail-IsWhole utf8 b r.encoded r.this in
            let word = pad_left64 (hex_of offset) in
            subst (IsPlaced (suc k) a offset) r.result (record {
              encoded = p.encoded;
              from = length r.encoded / 2 + p.from;
              head_before = word ++ p.head_before;
              head_after = p.head_after;
              tail_before = r.encoded ++ p.tail_before;
              tail_after = p.tail_after;
              this = p.this;
              word_at = omega (
                arith,
                length-append word p.head_before,
                length-pad_left64 (hex_of offset),
                p.word_at,
              );
              head =
                  ap (λ t. word ++ t)
                    (p.head
                      ∙ ap (λ n. p.head_before ++ (pad_left64 (hex_of n) ++ p.head_after))
                          (plus_assoc offset (length r.encoded / 2) p.from))
                  ∙ sym (append_assoc word p.head_before _);
              text_at = omega (arith, length-append r.encoded p.tail_before, whole, p.text_at);
              tail =
                  ap (λ t. r.encoded ++ t) p.tail
                  ∙ sym (append_assoc r.encoded p.tail_before (p.encoded ++ p.tail_after));
            })
        | inr r ↦
            let p = encode_args-IsPlaced k rest a offset r.more one there dynamic r.others in
            subst (IsPlaced (suc k) a offset) r.result (record {
              encoded = p.encoded;
              from = p.from;
              head_before = r.word ++ p.head_before;
              head_after = p.head_after;
              tail_before = p.tail_before;
              tail_after = p.tail_after;
              this = p.this;
              word_at = omega (
                arith,
                length-append r.word p.head_before,
                static-length b r.word first r.static r.this,
                p.word_at,
              );
              head = ap (λ t. r.word ++ t) p.head ∙ sym (append_assoc r.word p.head_before _);
              text_at = p.text_at;
              tail = p.tail;
            })
      ]

  take-here :
      (before t after : Text) (n : ℕ)
      → length before ≡ n
      → take (length t) (drop n (before ++ (t ++ after))) ≡ t
  take-here before t after n h =
      ap (λ m. take (length t) (drop m (before ++ (t ++ after)))) (sym h)
      ∙ ap (take (length t)) (drop-length before (t ++ after))
      ∙ take-length t after

  -- If the arguments have no static tuple and are encoded, then the word of each dynamic argument
  -- is the offset in bytes at which its encoding stands.
  pub abi_encode-offsets :
      (args : ArgValues) (out : Text) (k : ℕ) (a : ArgValue)
      → AllOneWord args
      → abi_encode utf8 args ≡ ok out
      → nth k args ≡ some a
      → is_dynamic a ≡ true
      → (offset : ℕ) × (encoded : Text) × (encode_tail utf8 a ≡ ok encoded)
        × (take 64 (drop (64 * k) out) ≡ pad_left64 (hex_of offset))
        × (take (length encoded) (drop (2 * offset) out) ≡ encoded)
  unfolding abi_encode
  abi_encode-offsets args out k a one h there dynamic =
      let (parts, e, h₁) = >>=-ok (encode_args utf8 args (count_args args * 32)) _ h in
      let p = encode_args-IsPlaced k args a (count_args args * 32) parts one there dynamic e in
      let offset : ℕ = count_args args * 32 + p.from in
      let word = pad_left64 (hex_of offset) in
      let sized = length-pad_left64 (hex_of offset) in
      let split_head : parts.head ++ parts.tail
          ≡ p.head_before ++ (word ++ (p.head_after ++ parts.tail)) =
        ap (λ t. t ++ parts.tail) p.head
        ∙ append_assoc p.head_before (word ++ p.head_after) parts.tail
        ∙ ap (λ t. p.head_before ++ t) (append_assoc word p.head_after parts.tail) in
      let split_tail : parts.head ++ parts.tail
          ≡ (parts.head ++ p.tail_before) ++ (p.encoded ++ p.tail_after) =
        ap (λ t. parts.head ++ t) p.tail
        ∙ sym (append_assoc parts.head p.tail_before (p.encoded ++ p.tail_after)) in
      let headed = encode_args-head args (count_args args * 32) parts one e in
      (
        offset,
        p.encoded,
        p.this,
        subst (λ t. take 64 (drop (64 * k) t) ≡ word) (sym split_head ∙ ok-injective h₁)
            (ap
                (λ n.
                  take n (drop (64 * k) (p.head_before ++ (word ++ (p.head_after ++ parts.tail)))))
                (sym sized)
              ∙ take-here p.head_before word (p.head_after ++ parts.tail) (64 * k) p.word_at),
        subst (λ t. take (length p.encoded) (drop (2 * offset) t) ≡ p.encoded)
            (sym split_tail ∙ ok-injective h₁)
            (take-here (parts.head ++ p.tail_before) p.encoded p.tail_after (2 * offset)
              (omega (arith, length-append parts.head p.tail_before, headed, p.text_at))),
      )
