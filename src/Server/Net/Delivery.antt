-- ===== src/Server/Net/Delivery.antt =====
-- The loops of `send` calls end, and deliver.
use mathlib.Core.List.{append_assoc}
use aevum.Prelude.{
  ℕ, zero, suc, ◌+◌, ◌-◌, ◌≡◌, ◌<◌, ◌≤◌, refl, sym, ap, ◌∙◌, Bool, true, false, [], ◌∷◌, ◌++◌,
  Option, some, Str, length, take, drop, ltb, inl, inr, Bool-cases, Option-cases, arith, append-nil,
  take-append-drop,
}
use aevum.Server.Net.{Net, NetLaws, send_from, send_response}

drop-nil : (k : ℕ) → drop {A = ℕ} k [] ≡ []
drop-nil zero = refl
drop-nil (suc k) = refl

drop-drop : (k m : ℕ) (s : Str) → drop m (drop k s) ≡ drop (k + m) s
drop-drop zero m s = ap (λ i. drop i s) (omega arith)
drop-drop (suc k) m [] = drop-nil m ∙ sym (drop-nil (suc k + m))
drop-drop (suc k) m (c ∷ s) =
    let same : suc (k + m) ≡ suc k + m = omega arith in
    drop-drop k m s ∙ ap (λ i. drop i (c ∷ s)) same

drop_all : (k : ℕ) (s : Str) → length s ≤ k → drop k s ≡ []
drop_all zero [] h = refl
drop_all zero (c ∷ s) h = absurd (omega arith)
drop_all (suc k) [] h = refl
drop_all (suc k) (c ∷ s) h = drop_all k s (omega arith)

length-drop_sub : (k : ℕ) (s : Str) → k ≤ length s → length (drop k s) + k ≡ length s
length-drop_sub zero s h = omega arith
length-drop_sub (suc k) [] h = omega arith
length-drop_sub (suc k) (c ∷ s) h = omega (arith, length-drop_sub k s)

module _ (n : Net) (laws : NetLaws n) where
  -- What the loop has to reach: it ends, and if no call failed the rest of the text was taken.
  abbrev Delivers : Str → ℕ → n.State → Option (Bool × n.State) → Type 0
  Delivers response sent st result =
      (r : Bool × n.State) × (result ≡ some r)
      × (r.0 ≡ true → n.taken r.1 ≡ n.taken st ++ drop sent response)

  pub send_from-Delivers :
      (fuel : ℕ) (response : Str) (sent : ℕ) (st : n.State)
      → sent ≤ length response
      → length response - sent < fuel
      → Delivers response sent st (send_from n fuel response sent st)
  unfolding send_from
  send_from-Delivers zero response sent st h f = absurd (omega arith)
  send_from-Delivers (suc fuel) response sent st h f =
      elim (Bool-cases (ltb sent (length response))) [
        | inr finished ↦ rw finished (
          (true, st),
          refl,
          λ _. sym (
              ap (λ r. n.taken st ++ r) (drop_all sent response (ground arith))
              ∙ append-nil (n.taken st)),
        )
        | inl more ↦
            let rest = drop sent response in
            let long = length-drop_sub sent response h in
            let short : sent < length response = ground arith in
            elim (Option-cases (n.send rest st).0) [
              | inl failed ↦ rw (more, failed) ((false, (n.send rest st).1), refl, λ h. cc)
              | inr (k, took) ↦
                  let (within, adds) = laws.send_takes rest st k took in
                  let some_bytes = laws.send_progress rest st k took (omega arith) in
                  let (r, ends, all) =
                    send_from-Delivers fuel response (sent + k) (n.send rest st).1 (omega arith)
                      (omega arith) in
                  rw (more, took)
                    (
                      r,
                      ends,
                      λ good.
                          all good
                          ∙ (ap (λ t. t ++ drop (sent + k) response) adds
                              ∙ (append_assoc (n.taken st) (take k rest) (drop (sent + k) response)
                                  ∙ ap (λ t. n.taken st ++ t)
                                      (ap (λ t. take k rest ++ t) (sym (drop-drop sent k response))
                                        ∙ take-append-drop k rest))),
                    )
            ]
      ]

  -- Over a blocking stream socket the loop that sends a response ends, and if none of its calls
  -- failed the peer was sent the whole response behind what it was sent before.
  pub send_response-Delivers :
      (response : Str) (st : n.State) → Delivers response 0 st (send_response n response st)
  unfolding send_response
  send_response-Delivers response st =
      send_from-Delivers (suc (length response)) response 0 st (omega arith) (omega arith)
