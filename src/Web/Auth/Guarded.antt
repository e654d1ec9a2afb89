-- ===== src/Web/Auth/Guarded.antt =====
-- Which requests run a handler.
use mathlib.Core.Option.{some-injective, none-ne-some}
use sub_manager_vpn.Base.Map.{lookup}
use sub_manager_vpn.Web.Auth.{
  allow, unauthorized, too_many, Answer, handled, Gate, auth, has_suffix, bearer, Tickets,
  bearer_is, Request, valid_token, consume_ticket,
}
use sub_manager_vpn.Base.{
  sym, if◌then◌else◌, ◌∙◌, ap, inr, text_eq_iff, refl, inl, Option, codes, ◌⊎◌, ◌||◌, trim_prefix,
  ltb, ◌<◌, trim_space, text_eq, some, arith, ◌↔◌, none, ◌&&◌, true, not, has_prefix, false, ◌≡◌,
  is_empty, Bool, ℕ, Text,
}

-- The request shows the token in its header; or it is for the stream and shows the token or a ticket that
-- is stored and whose time has not passed.
abbrev pub IsAuthorized : Text → Request → ℕ → Tickets → Type 0
IsAuthorized token r now tickets =
    (is_empty token ≡ false)
    × ((has_prefix r.authorization bearer ≡ true)
          × (trim_space (trim_prefix r.authorization bearer) ≡ token)
        ⊎ (has_suffix r.path (codes "/api/stream") ≡ true)
          × ((r.token ≡ token)
              ⊎ (is_empty r.ticket ≡ false)
                × ((end : ℕ) × (lookup r.ticket tickets ≡ some end) × (now < end))))

is_live : Text → ℕ → Tickets → Bool
is_live t now tickets = elim (lookup t tickets) [ none ↦ false | some end ↦ ltb now end ]

is_live_iff :
    (t : Text) (now : ℕ) (tickets : Tickets)
    → (is_live t now tickets ≡ true) ↔ ((end : ℕ) × (lookup t tickets ≡ some end) × (now < end))
unfolding is_live
is_live_iff t now tickets = go (lookup t tickets)
  where
    go :
        (o : Option ℕ)
        → (elim o as (λ x. Bool) [ none ↦ false | some end ↦ ltb now end ] ≡ true)
          ↔ ((end : ℕ) × (o ≡ some end) × (now < end))
    go none = (λ h. absurd (ground (arith, h)), λ h. absurd (none-ne-some h.0 h.1))
    go (some e) = (
      λ h. (e, refl, ground (arith, h)),
      λ h. let same = some-injective _ _ h.1 in ground (arith, same, h.2),
    )

consume_ticket-is_live :
    (t : Text) (now : ℕ) (tickets : Tickets)
    → (consume_ticket t now tickets).0 ≡ (not (is_empty t) && is_live t now tickets)
unfolding consume_ticket is_live
consume_ticket-is_live t now tickets = ground arith

shown : Text → Request → ℕ → Tickets → Bool
shown token r now tickets =
    (has_prefix r.authorization bearer
      && text_eq (trim_space (trim_prefix r.authorization bearer)) token)
    || (has_suffix r.path (codes "/api/stream")
        && ((not (is_empty r.token) && text_eq r.token token)
            || (not (is_empty r.ticket) && is_live r.ticket now tickets)))

valid_token-shown :
    (token : Text) (r : Request) (now : ℕ) (tickets : Tickets)
    → (valid_token token r now tickets).0 ≡ (not (is_empty token) && shown token r now tickets)
unfolding valid_token bearer_is shown
valid_token-shown token r now tickets = ground (arith, consume_ticket-is_live r.ticket now tickets)

-- The header test, the query test and the ticket test
IsAuthorized-of :
    (token : Text) (r : Request) (now : ℕ) (tickets : Tickets)
    → (not (is_empty token) && shown token r now tickets) ≡ true
    → IsAuthorized token r now tickets
unfolding shown
IsAuthorized-of token r now tickets h =
    let filled : is_empty token ≡ false = ground (arith, h) in (filled, go header refl)
  where
    header : Bool
    header =
        has_prefix r.authorization bearer
        && text_eq (trim_space (trim_prefix r.authorization bearer)) token

    query : Bool
    query = not (is_empty r.token) && text_eq r.token token

    stream :
        header ≡ false
        → (b : Bool) → query ≡ b
        → (has_suffix r.path (codes "/api/stream") ≡ true)
          × ((r.token ≡ token)
              ⊎ (is_empty r.ticket ≡ false)
                × ((end : ℕ) × (lookup r.ticket tickets ≡ some end) × (now < end)))
    stream e true q =
        (ground (arith, h, e), inl ((text_eq_iff r.token token).0 (ground (arith, q))))
    stream e false q = (
      ground (arith, h, e),
      inr (ground (arith, h, e, q), (is_live_iff r.ticket now tickets).0 (ground (arith, h, e, q))),
    )

    go :
        (b : Bool)
        → header ≡ b
        → (has_prefix r.authorization bearer ≡ true)
            × (trim_space (trim_prefix r.authorization bearer) ≡ token)
          ⊎ (has_suffix r.path (codes "/api/stream") ≡ true)
            × ((r.token ≡ token)
                ⊎ (is_empty r.ticket ≡ false)
                  × ((end : ℕ) × (lookup r.ticket tickets ≡ some end) × (now < end)))
    go true e = inl (ground (arith, e), (text_eq_iff _ _).0 (ground (arith, e)))
    go false e = inr (stream e query refl)

of_authorized :
    (token : Text) (r : Request) (now : ℕ) (tickets : Tickets)
    → IsAuthorized token r now tickets
    → (not (is_empty token) && shown token r now tickets) ≡ true
unfolding shown
of_authorized token r now tickets (f, inl (p, e)) =
    let same = (text_eq_iff (trim_space (trim_prefix r.authorization bearer)) token).1 e in
    ground (arith, f, p, same)
of_authorized token r now tickets (f, inr (p, inl e)) =
    let same = (text_eq_iff r.token token).1 e in
    let full : is_empty r.token ≡ false = ap is_empty e ∙ f in ground (arith, f, p, same, full)
of_authorized token r now tickets (f, inr (p, inr (e, live))) =
    let k = (is_live_iff r.ticket now tickets).1 live in ground (arith, f, p, e, k)

is_handled : Answer → Bool
is_handled handled = true
is_handled too_many = false
is_handled unauthorized = false

-- The handler of a request runs exactly when the request is authorized; a server with no token runs none.
pub auth-IsAuthorized :
    (split_host : Text → Option Text) (token : Text) (r : Request) (now : ℕ) (g : Gate)
    → ((auth split_host token r now g).0 ≡ handled) ↔ IsAuthorized token r now g.tickets
unfolding auth
auth-IsAuthorized split_host token r now g = go (valid_token token r now g.tickets).0 refl
  where
    ip : Text
    ip = elim (split_host r.remote_addr) [ none ↦ r.remote_addr | some h ↦ h ]

    refused : Bool → Answer
    refused b = if not b then too_many else unauthorized

    not_handled : (b : Bool) → refused b ≡ handled → ⊥
    not_handled true h =
        let k : false ≡ true = unfold is_handled in ap is_handled h in ground (arith, k)
    not_handled false h =
        let k : false ≡ true = unfold is_handled in ap is_handled h in ground (arith, k)

    result : Bool → Answer × Gate
    result b =
        if b then (handled, record g { tickets = (valid_token token r now g.tickets).1 }) else (
          refused (allow ip now g.limiter).0,
          record {
            tickets = (valid_token token r now g.tickets).1;
            limiter = (allow ip now g.limiter).1;
          },
        )

    shown_iff :
        (valid_token token r now g.tickets).0
        ≡ (not (is_empty token) && shown token r now g.tickets)
    shown_iff = valid_token-shown token r now g.tickets

    go :
        (b : Bool)
        → (valid_token token r now g.tickets).0 ≡ b
        → ((result b).0 ≡ handled) ↔ IsAuthorized token r now g.tickets
    go true e = (λ h. IsAuthorized-of token r now g.tickets (sym shown_iff ∙ e), λ h. refl)
    go false e = (
      λ h. absurd (not_handled (allow ip now g.limiter).0 h),
      λ h.
          let k = of_authorized token r now g.tickets h in absurd (ground (arith, k, shown_iff, e)),
    )
