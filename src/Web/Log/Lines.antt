-- ===== src/Web/Log/Lines.antt =====
-- The lines do not depend on how the log was cut into writes.
use sub_manager_vpn.Web.Log.{emit, LogCapture, write, drain}
use sub_manager_vpn.Base.{
  refl, true, append_assoc, All-append, ◌∙◌, if◌then◌else◌, append-nil, sym, [], false, ap, Bool,
  ◌∷◌, ◌≡◌, ◌==◌, ◌++◌, All, Text,
}

-- No newline in the text.
abbrev pub IsLine : Text → Type 0
IsLine = All (λ c. (c == 10) ≡ false)

drain-line :
    (line s text : Text) (l : LogCapture)
    → IsLine s
    → drain line (s ++ text) l ≡ drain (line ++ s) text l
unfolding drain
drain-line line [] text l h = ap (λ t. drain t text l) (sym (append-nil line))
drain-line line (c ∷ s) text l (hc, h) = rw hc (
    drain-line (line ++ c ∷ []) s text l h
    ∙ ap (λ t. drain t text l) (append_assoc line (c ∷ []) s))

drain_partial :
    (line text : Text) (l : LogCapture) → IsLine line → IsLine (drain line text l).partial
unfolding drain
drain_partial line [] l h = h
drain_partial line (c ∷ text) l h =
    go (c == 10) refl (drain_partial [] text (emit line l) tt)
      (drain_partial (line ++ c ∷ []) text l)
  where
    go :
        (b : Bool)
        → (c == 10) ≡ b
        → IsLine (drain [] text (emit line l)).partial
        → (IsLine (line ++ c ∷ []) → IsLine (drain (line ++ c ∷ []) text l).partial)
        → IsLine (if b then drain [] text (emit line l) else drain (line ++ c ∷ []) text l).partial
    go true e x f = x
    go false e x f = f (All-append _ line (c ∷ []) h (e, tt))

-- The loop overwrites the unfinished line, whatever it was.
drain_reset :
    (line q x : Text) (l : LogCapture) → drain line q l ≡ drain line q (record l { partial = x })
unfolding drain emit
drain_reset line [] x l = refl
drain_reset line (c ∷ q) x l =
    go (c == 10) (drain_reset [] q x (emit line l)) (drain_reset (line ++ c ∷ []) q x l)
  where
    go :
        (b : Bool)
        → drain [] q (emit line l) ≡ drain [] q (emit line (record l { partial = x }))
        → drain (line ++ c ∷ []) q l ≡ drain (line ++ c ∷ []) q (record l { partial = x })
        → (if b then drain [] q (emit line l) else drain (line ++ c ∷ []) q l) ≡ (
            if b
            then drain [] q (emit line (record l { partial = x }))
            else drain (line ++ c ∷ []) q (record l { partial = x }))
    go true y z = y
    go false y z = z

drain_state :
    (line p q : Text) (l : LogCapture)
    → drain line (p ++ q) l ≡ drain (drain line p l).partial q (drain line p l)
unfolding drain
drain_state line [] q l = drain_reset line q line l
drain_state line (c ∷ p) q l =
    go (c == 10) (drain_state [] p q (emit line l)) (drain_state (line ++ c ∷ []) p q l)
  where
    go :
        (b : Bool)
        → drain [] (p ++ q) (emit line l)
          ≡ drain (drain [] p (emit line l)).partial q (drain [] p (emit line l))
        → drain (line ++ c ∷ []) (p ++ q) l
          ≡ drain (drain (line ++ c ∷ []) p l).partial q (drain (line ++ c ∷ []) p l)
        → (if b then drain [] (p ++ q) (emit line l) else drain (line ++ c ∷ []) (p ++ q) l)
          ≡ drain
              (if b then drain [] p (emit line l) else drain (line ++ c ∷ []) p l).partial
              q
              (if b then drain [] p (emit line l) else drain (line ++ c ∷ []) p l)
    go true x y = x
    go false x y = y

-- Two writes one after the other do what one write of both texts does, to the ring, to what is
-- published and to the unfinished line: a line may be cut anywhere.
pub write-write : (p q : Text) (l : LogCapture) → write q (write p l) ≡ write (p ++ q) l
unfolding write
write-write p q l =
    let first = drain [] (l.partial ++ p) l in
    drain-line [] first.partial q first (drain_partial [] (l.partial ++ p) l tt)
    ∙ (sym (drain_state [] (l.partial ++ p) q l)
        ∙ ap (λ t. drain [] t l) (append_assoc l.partial p q))
