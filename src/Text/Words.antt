-- ===== src/Text/Words.antt =====
-- `SplitOnWhiteSpacePreservingQuotes` and `SplitOnWhiteSpace`: the loops over positions return the
-- words that a plain reading of the text gives, the first `max_segs` of them where that is not 0.
use include_what_you_use.Base.{
  ℕ, zero, suc, ◌+◌, ◌-◌, ◌≤◌, ◌<◌, some, List, [], ◌∷◌, ◌++◌, ◌≡◌, refl, inl, inr, arith, ap, sym,
  ◌∙◌, length, append-nil, ◌==◌, if◌then◌else◌, Bool-cases,
}
use include_what_you_use.Text.Room.{
  at_most, room_for, room_for-cons, room_for-nil, room_for-last, room_for-more, room-snoc, At,
  At-skip, At-grow, At-slice, At-last, begun_at,
}
use include_what_you_use.Text.{
  Text, is_space, closing_quote_for, white_space_loop, split_on_white_space,
}

-- The words of a text, where `tok` is the part of the current word that is read already. A word that
-- begins with a quote or `<` goes on over white space until `quote`, the byte that closes it.
unfoldable pub quoted_words : ℕ → Text → Text → List Text
unfolding is_space
quoted_words quote [] [] = []
quoted_words quote (t ∷ tok) [] = (t ∷ tok) ∷ []
quoted_words quote [] (c ∷ cs) =
    let skipped = quoted_words quote [] cs in
    let begun = quoted_words (closing_quote_for c) (c ∷ []) cs in
    if is_space c then skipped else begun
quoted_words quote (t ∷ tok) (c ∷ cs) =
    let ended = quoted_words quote [] cs in
    let kept = quoted_words quote (t ∷ tok ++ c ∷ []) cs in
    let closed = quoted_words (if c == quote then 0 else quote) (t ∷ tok ++ c ∷ []) cs in
    if is_space c then (if quote == 0 then (t ∷ tok) ∷ ended else kept) else closed

unfoldable pub plain_words : Text → Text → List Text
unfolding is_space
plain_words [] [] = []
plain_words (t ∷ tok) [] = (t ∷ tok) ∷ []
plain_words [] (c ∷ cs) =
    let skipped = plain_words [] cs in
    let begun = plain_words (c ∷ []) cs in if is_space c then skipped else begun
plain_words (t ∷ tok) (c ∷ cs) =
    let ended = plain_words [] cs in
    let longer = plain_words (t ∷ tok ++ c ∷ []) cs in
    if is_space c then (t ∷ tok) ∷ ended else longer

loop-plain_words :
    (str pre tok rest : Text) (m pos : ℕ) (acc : List Text)
    → At str pre tok rest pos
    → (1 ≤ m → length acc < m)
    → white_space_loop str m rest pos (begun_at pre tok) acc
      ≡ acc ++ room_for m (length acc) (plain_words tok rest)
unfolding white_space_loop plain_words
loop-plain_words str pre [] [] m pos acc a room =
    rw (room_for-nil m (length acc)) (sym (append-nil acc))
loop-plain_words str pre (x ∷ tok) [] m pos acc a room = rw (At-last str pre (x ∷ tok) pos a) (
    rw (room_for-cons m acc (x ∷ tok) [] room)
      (rw (room_for-nil m (length acc + 1)) (ground arith)))
loop-plain_words str pre [] (c ∷ cs) m pos acc a room = elim (Bool-cases (is_space c)) [
  | inl space ↦ rw space (
      loop-plain_words str (pre ++ c ∷ []) [] cs m (pos + 1) acc (At-skip str pre [] c cs pos a)
        room)
  | inr letter ↦
      let begins : pos ≡ length pre = omega (arith, a.position) in
      rw letter (
        rw (ap some begins) (
          loop-plain_words str pre (c ∷ []) cs m (pos + 1) acc (At-grow str pre [] c cs pos a)
            room))
]
loop-plain_words str pre (x ∷ tok) (c ∷ cs) m pos acc a room =
    let w = x ∷ tok in
    let skip =
      loop-plain_words str (pre ++ (w ++ c ∷ [])) [] cs m (pos + 1) (acc ++ w ∷ [])
        (At-skip str pre w c cs pos a) in
    rw (At-slice str pre w (c ∷ cs) pos a) (elim (Bool-cases (is_space c)) [
      | inl space ↦ rw space (elim (Bool-cases (length (acc ++ w ∷ []) == m)) [
        | inl full ↦ rw full (room_for-last m acc w _ room full)
        | inr more ↦
            rw more (skip (room-snoc m acc w room more) ∙ room_for-more m acc w _ room more)
      ])
      | inr letter ↦ rw letter (
          loop-plain_words str pre (w ++ c ∷ []) cs m (pos + 1) acc (At-grow str pre w c cs pos a)
            room)
    ])

at_most-room_for : (m : ℕ) (ws : List Text) → room_for m 0 ws ≡ at_most m ws
at_most-room_for zero ws = refl
at_most-room_for (suc m) ws = let all : suc m - 0 ≡ suc m = omega arith in rw all

-- `SplitOnWhiteSpace` returns the words of the text, and the first `max_segs` of them where `max_segs`
-- is not 0.
pub white_space-words :
    (str : Text) (max_segs : ℕ)
    → split_on_white_space str max_segs ≡ at_most max_segs (plain_words [] str)
unfolding split_on_white_space
white_space-words str m =
    loop-plain_words str [] [] str m 0 [] (record { whole = refl; position = omega arith })
      (λ h. omega arith)
    ∙ at_most-room_for m _
