-- ===== src/Client/Payloads.antt =====
-- Different requests have different payloads.
use mathlib.Core.List.{append_assoc}
use aevum.Prelude.{
  ◌≡◌, refl, ap, sym, ◌∙◌, true, false, not, [], ◌∷◌, ◌++◌, Str, lit, codes, all, is_empty,
  if◌then◌else◌, ◌==◌, arith, drop,
}
use aevum.Client.{AevumClient, build_payload}

-- The text holds no quotation mark.
abbrev pub NoQuote : Str → Type 0
NoQuote s = all (λ c. not (c == b'"')) s ≡ true

-- Two texts without a quotation mark, with one behind each: the longer text says where it ends.
before_quote :
    (s t : Str) (x y : Str)
    → NoQuote s
    → NoQuote t
    → s ++ (b'"' ∷ x) ≡ t ++ (b'"' ∷ y)
    → (s ≡ t) × (x ≡ y)
before_quote [] [] x y p q e = (refl, ap (drop 1) e)
before_quote [] (d ∷ t) x y p q e = absurd (ground (arith, e, q))
before_quote (c ∷ s) [] x y p q e = absurd (ground (arith, e, p))
before_quote (c ∷ s) (d ∷ t) x y p q e =
    let rest = before_quote s t x y (ground (arith, p)) (ground (arith, q)) (ap (drop 1) e) in
    (cc (rest.0, e), rest.1)

-- The payload behind the action.
fields : Str → Str → Str
fields collection extra_fields =
    (if is_empty collection then [] else lit ",\"collection\":\"" ++ (collection ++ lit "\""))
    ++ ((if is_empty extra_fields then [] else lit "," ++ extra_fields) ++ lit "}")

-- The payload in one line, with the quotation marks that end the key and the action.
build_payload-fields :
    (client : AevumClient) (action collection extra : Str)
    → build_payload client action collection extra
      ≡ codes "{\"auth\":\""
        ++ (client.api_key
            ++ (b'"' ∷ (codes ",\"action\":\"" ++ (action ++ (b'"' ∷ fields collection extra)))))
unfolding build_payload fields lit
build_payload-fields client action collection extra =
    let rest = fields collection extra in
    ap (λ s. codes "{\"auth\":\"" ++ s)
      (append_assoc client.api_key (codes "\",\"action\":\"" ++ (action ++ codes "\"")) rest
        ∙ ap (λ s. client.api_key ++ (codes "\",\"action\":\"" ++ s))
            (append_assoc action (codes "\"") rest))

fields-collection :
    (collection extra : Str)
    → is_empty collection ≡ false
    → fields collection extra
      ≡ codes ",\"collection\":\"" ++ (collection ++ (b'"' ∷ fields [] extra))
unfolding fields lit
fields-collection [] extra h = absurd cc
fields-collection (c ∷ s) extra h =
    ap (λ r. codes ",\"collection\":\"" ++ r) (append_assoc (c ∷ s) (codes "\"") (fields [] extra))

-- Where the keys, the actions and the collections hold no quotation mark and a collection is
-- named, equal payloads have the same key, the same action and the same collection.
pub build_payload_injective :
    (client other : AevumClient) (action action' collection collection' extra extra' : Str)
    → NoQuote client.api_key
    → NoQuote other.api_key
    → NoQuote action
    → NoQuote action'
    → NoQuote collection
    → NoQuote collection'
    → is_empty collection ≡ false
    → is_empty collection' ≡ false
    → build_payload client action collection extra ≡ build_payload other action' collection' extra'
    → (client.api_key ≡ other.api_key) × ((action ≡ action') × (collection ≡ collection'))
build_payload_injective client other a a' coll coll' extra extra' k k' q q' n n' named named' e =
    let shapes =
      sym (build_payload-fields client a coll extra)
      ∙ (e ∙ build_payload-fields other a' coll' extra') in
    let keys = before_quote client.api_key other.api_key _ _ k k' (ap (drop 9) shapes) in
    let actions = before_quote a a' _ _ q q' (ap (drop 11) keys.1) in
    let tails =
      sym (fields-collection coll extra named)
      ∙ (actions.1 ∙ fields-collection coll' extra' named') in
    (keys.0, (actions.0, (before_quote coll coll' _ _ n n' (ap (drop 15) tails)).0))
