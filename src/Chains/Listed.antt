-- ===== src/Chains/Listed.antt =====
-- What a chains.json that runner/src/chains.ts accepts lists.
use mathlib.Core.Path.{subst}
use evm_contract_auditor_hon.Prelude.{
  ◌≡◌, refl, List, [], ◌∷◌, Bool, true, false, not, Option, none, some, Text, text_eq, text_eq_refl,
  text_eq_iff, ◌++◌, codes, any, find?, arith,
}
use evm_contract_auditor_hon.Prelude.Json.{
  Json, null, bool, number, text, array, object, Items, nil, cons, get,
}
use evm_contract_auditor_hon.Utils.Retry.{ok, ok-injective}
use evm_contract_auditor_hon.Utils.Checks.{>>=-ok, require-ok}
use evm_contract_auditor_hon.Chains.{
  ChainEntry, is_chain_slug, is_http_url, is_ws_url, absent_or, parse_entry, parse_entries,
  parse_chains_document, select_chain, parse_document, chains_of,
}

-- An entry whose slug and URLs have the form that is asked for, and whose slug was not seen.
pub record IsAccepted (seen : List Text) (e : ChainEntry) : Type 0 where
  pub slug : is_chain_slug e.slug ≡ true
  pub unseen : any (text_eq e.slug) seen ≡ false
  pub http : is_http_url e.rpc_http_url ≡ true
  pub ws : absent_or is_ws_url e.rpc_ws_url ≡ true

not-true : (b : Bool) → not b ≡ true → b ≡ false
not-true b h = ground arith

parse_entry-IsAccepted :
    (seen : List Text) (raw : Json) (e : ChainEntry)
    → parse_entry seen raw ≡ ok e
    → IsAccepted seen e
unfolding parse_entry
parse_entry-IsAccepted seen null e h = cc
parse_entry-IsAccepted seen (bool b) e h = cc
parse_entry-IsAccepted seen (number n) e h = cc
parse_entry-IsAccepted seen (text t) e h = cc
parse_entry-IsAccepted seen (array xs) e h = cc
parse_entry-IsAccepted seen (object raw) e h =
    let (slug, _, h₁) = >>=-ok _ _ h in
    let (slug_fits, h₂) = require-ok _ _ _ h₁ in
    let (fresh, h₃) = require-ok _ _ _ h₂ in
    let (http, _, h₄) = >>=-ok _ _ h₃ in
    let (http_fits, h₅) = require-ok _ _ _ h₄ in
    let (ws, _, h₆) = >>=-ok _ _ h₅ in
    let (ws_fits, h₇) = require-ok _ _ _ h₆ in
    let (name, _, h₈) = >>=-ok _ _ h₇ in
    let (start, _, h₉) = >>=-ok _ _ h₈ in
    let (conf, _, ha) = >>=-ok _ _ h₉ in
    let (hook, _, hb) = >>=-ok _ _ ha in
    let (auth, _, hc) = >>=-ok _ _ hb in
    let (rules, _, hd) = >>=-ok _ _ hc in
    subst (IsAccepted seen) (ok-injective hd)
      (record { slug = slug_fits; unseen = not-true _ fresh; http = http_fits; ws = ws_fits })

abbrev AllAccepted : List Text → List ChainEntry → Type 0
AllAccepted seen [] = Unit
AllAccepted seen (e ∷ es) = IsAccepted seen e × AllAccepted (e.slug ∷ seen) es

parse_entries-AllAccepted :
    (seen : List Text) (raw : Items) (es : List ChainEntry)
    → parse_entries seen raw ≡ ok es
    → AllAccepted seen es
unfolding parse_entries
parse_entries-AllAccepted seen nil es h = subst (AllAccepted seen) (ok-injective h) tt
parse_entries-AllAccepted seen (cons raw rest) es h =
    let (e, first, h₁) = >>=-ok (parse_entry seen raw) _ h in
    let (later, others, h₂) = >>=-ok (parse_entries (e.slug ∷ seen) rest) _ h₁ in
    subst (AllAccepted seen) (ok-injective h₂) (
      parse_entry-IsAccepted seen raw e first,
      parse_entries-AllAccepted (e.slug ∷ seen) rest later others,
    )

-- An entry of an accepted list: its slug is none of those before it, and the search finds it.
record IsFound (seen : List Text) (entries : List ChainEntry) (e : ChainEntry) : Type 0 where
  accepted : IsAccepted [] e
  unseen : any (text_eq e.slug) seen ≡ false
  found : find? (λ c. text_eq c.slug e.slug) entries ≡ some e

AllAccepted-IsFound :
    (seen : List Text) (before after : List ChainEntry) (e : ChainEntry)
    → AllAccepted seen (before ++ e ∷ after)
    → IsFound seen (before ++ e ∷ after) e
unfolding find?
AllAccepted-IsFound seen [] after e (a, h) = record {
  accepted = record { slug = a.slug; unseen = refl; http = a.http; ws = a.ws };
  unseen = a.unseen;
  found = rw (text_eq_refl e.slug);
}
AllAccepted-IsFound seen (b ∷ before) after e (a, h) =
    let k = AllAccepted-IsFound (b.slug ∷ seen) before after e h in
    record {
      accepted = k.accepted;
      unseen = ground (arith, k.unseen);
      found =
          ground (arith, k.found, k.unseen, text_eq_iff b.slug e.slug, text_eq_iff e.slug b.slug);
    }

document_entries :
    (o : Option Json) (es : List ChainEntry) → parse_document o ≡ ok es → AllAccepted [] es
document_entries none es h = cc
document_entries (some null) es h = cc
document_entries (some (bool b)) es h = cc
document_entries (some (number n)) es h = cc
document_entries (some (text t)) es h = cc
document_entries (some (array xs)) es h = cc
document_entries (some (object doc)) es h =
    chains_entries (get (codes "chains") doc) es (require-ok _ _ _ h).1
  where
    chains_entries :
        (o : Option Json) (es : List ChainEntry) → chains_of o ≡ ok es → AllAccepted [] es
    chains_entries (some (array xs)) es h = parse_entries-AllAccepted [] xs es h
    chains_entries none es h = cc
    chains_entries (some null) es h = cc
    chains_entries (some (bool b)) es h = cc
    chains_entries (some (number n)) es h = cc
    chains_entries (some (text t)) es h = cc
    chains_entries (some (object ms)) es h = cc

-- If chains.json is accepted, each of its chains has a slug of the pattern and URLs of the schemes
-- asked for, and selecting by its slug gives that chain.
pub parse_chains_document-selects :
    (json : Text → Option Json) (content : Text) (entries before after : List ChainEntry)
    (e : ChainEntry)
    → parse_chains_document json content ≡ ok entries
    → entries ≡ before ++ e ∷ after
    → IsAccepted [] e × (select_chain entries e.slug ≡ ok e)
unfolding parse_chains_document select_chain
parse_chains_document-selects json content entries before after e h there =
    let accepted = document_entries (json content) entries h in
    let k = AllAccepted-IsFound [] before after e (subst (AllAccepted []) there accepted) in
    (k.accepted, rw (there, k.found))
