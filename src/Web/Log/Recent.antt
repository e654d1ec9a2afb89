-- ===== src/Web/Log/Recent.antt =====
-- The ring holds the newest lines.
use sub_manager_vpn.Base.{
  ltb_false→le, false, true, ltb→lt, ltb, ◌==◌, length-drop, if◌then◌else◌, length-append, Bool,
  sym, refl, ◌∙◌, zero, arith, [], ◌∷◌, suc, ap, ◌-◌, ◌++◌, ◌+◌, ◌≡◌, length, ◌≤◌, drop, Text, List,
  ℕ,
}
use sub_manager_vpn.Web.Log.{trim_returns, write, emit, drain, LogCapture, RingBuffer, append}

-- The last so many.
abbrev pub last_of {ℓ} : {A : Type ℓ} → ℕ → List A → List A
last_of k xs = drop (length xs - k) xs

drop-append : (k : ℕ) (xs ys : List Text) → k ≤ length xs → drop k (xs ++ ys) ≡ drop k xs ++ ys
drop-append zero xs ys h = refl
drop-append (suc k) [] ys h = absurd (omega arith)
drop-append (suc k) (x ∷ xs) ys h = drop-append k xs ys (omega arith)

drop-nil : (k : ℕ) → drop {A = Text} k [] ≡ []
drop-nil zero = refl
drop-nil (suc k) = refl

drop-drop : (j k : ℕ) (xs : List Text) → drop j (drop k xs) ≡ drop (k + j) xs
drop-drop j zero xs = ap (λ n. drop n xs) (omega arith)
drop-drop j (suc k) [] = drop-nil j ∙ sym (drop-nil (suc k + j))
drop-drop j (suc k) (x ∷ xs) =
    let next : suc (k + j) ≡ suc k + j = omega arith in
    drop-drop j k xs ∙ ap (λ n. drop n (x ∷ xs)) next

-- One more line: the ring still holds the newest ones.
append-last_of :
    (line : Text) (lines : List Text) (r : RingBuffer)
    → r.buf ≡ last_of r.size lines
    → (append line r).buf ≡ last_of r.size (lines ++ line ∷ [])
unfolding append
append-last_of line lines r e = go (ltb r.size (length (r.buf ++ line ∷ []))) refl
  where
    old : ℕ
    old = length lines - r.size

    bounded : old ≤ length lines
    bounded = omega arith

    longer : r.buf ++ line ∷ [] ≡ drop old (lines ++ line ∷ [])
    longer = ap (λ b. b ++ line ∷ []) e ∙ sym (drop-append old lines (line ∷ []) bounded)

    size_of : length (r.buf ++ line ∷ []) ≡ (length lines - old) + 1
    size_of = omega (arith, length-append r.buf (line ∷ []), ap length e, length-drop old lines)

    total : length (lines ++ line ∷ []) ≡ length lines + 1
    total = omega (arith, length-append lines (line ∷ []))

    go :
        (b : Bool)
        → ltb r.size (length (r.buf ++ line ∷ [])) ≡ b
        → (if b
            then drop (length (r.buf ++ line ∷ []) - r.size) (r.buf ++ line ∷ [])
            else r.buf ++ line ∷ [])
          ≡ last_of r.size (lines ++ line ∷ [])
    go true h =
        let more = ltb→lt _ _ h in
        let skip : old + (length (r.buf ++ line ∷ []) - r.size)
            ≡ length (lines ++ line ∷ []) - r.size =
          omega (arith, more, size_of, total) in
        ap (drop (length (r.buf ++ line ∷ []) - r.size)) longer
        ∙ (drop-drop (length (r.buf ++ line ∷ []) - r.size) old (lines ++ line ∷ [])
            ∙ ap (λ n. drop n (lines ++ line ∷ [])) skip)
    go false h =
        let few = ltb_false→le _ _ h in
        let skip : old ≡ length (lines ++ line ∷ []) - r.size =
          omega (arith, few, size_of, total) in
        longer ∙ ap (λ n. drop n (lines ++ line ∷ [])) skip

-- The ring holds the newest of the lines that were published.
abbrev pub IsNewest : LogCapture → Type 0
IsNewest l = l.ring.buf ≡ last_of l.ring.size l.published

emit-IsNewest : (line : Text) (l : LogCapture) → IsNewest l → IsNewest (emit line l)
unfolding emit
emit-IsNewest line l h =
    append-last_of (trim_returns line) l.published l.ring h
    ∙ ap (λ k. last_of k (l.published ++ trim_returns line ∷ [])) (unfold append in refl)

drain-IsNewest : (line text : Text) (l : LogCapture) → IsNewest l → IsNewest (drain line text l)
unfolding drain
drain-IsNewest line [] l h = h
drain-IsNewest line (c ∷ text) l h =
    go (c == 10) (drain-IsNewest [] text (emit line l) (emit-IsNewest line l h))
      (drain-IsNewest (line ++ c ∷ []) text l h)
  where
    go :
        (b : Bool)
        → IsNewest (drain [] text (emit line l))
        → IsNewest (drain (line ++ c ∷ []) text l)
        → IsNewest (if b then drain [] text (emit line l) else drain (line ++ c ∷ []) text l)
    go true x y = x
    go false x y = y

-- A write of any text, with any number of lines, leaves in the ring the newest of all the lines
-- that were ever published, as many as it has room for.
pub write-IsNewest : (p : Text) (l : LogCapture) → IsNewest l → IsNewest (write p l)
unfolding write
write-IsNewest p l h = drain-IsNewest [] (l.partial ++ p) l h
