-- ===== src/Prelude/Json.antt =====
-- What `JSON.parse` returns: one data type of values. A list of values and the members of an
-- object are types of the same block.
use Prim.Native.Nat.{ℕ}
use mathlib.Core.Bool.{Bool}
use mathlib.Core.List.{List, [], ◌∷◌}
use mathlib.Core.Option.{Option, none, some}
use evm_contract_auditor_hon.Prelude.Tests.{if◌then◌else◌}
use evm_contract_auditor_hon.Prelude.Texts.{Text, text_eq}
use evm_contract_auditor_hon.Prelude.Int.{ℤ}

-- `decimal m p` is the number m / 10^p with a fractional part.
pub data Number : Type 0 where
  integer : ℤ → Number
  decimal : ℤ → ℕ → Number

mutual
  pub data Json : Type 0 where
    null : Json
    bool : Bool → Json
    number : Number → Json
    text : Text → Json
    array : Items → Json
    object : Members → Json

  pub data Items : Type 0 where
    nil : Items
    cons : Json → Items → Items

  pub data Members : Type 0 where
    end : Members
    member : Text → Json → Members → Members

abbrev pub items : Items → List Json
items nil = []
items (cons v vs) = v ∷ items vs

-- `obj[key]`, where `none` is undefined. `JSON.parse` keeps the last of two equal keys; a document
-- is taken with its keys distinct.
unfoldable pub get : Text → Members → Option Json
get k end = none
get k (member j v ms) = if text_eq j k then some v else get k ms
