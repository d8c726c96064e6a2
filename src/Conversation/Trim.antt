-- ===== src/Conversation/Trim.antt =====
-- What `_trim_history` keeps.
use mathlib.Core.List.{reverse-append, reverse-reverse, map-append}
use yeoun_ai.Base.{
  ℕ, Bool-cases, ◌+◌, ◌≤◌, ◌<◌, ◌≡◌, ◌⊎◌, inl, inr, refl, sym, ap, ◌∙◌, true, ◌||◌, List, [], ◌∷◌,
  ◌++◌, map, reverse, arith, ltb, leb, length, length-append,
}
use yeoun_ai.Sessions.{MessageRecord}
use yeoun_ai.Models.{ChatMessage}
use yeoun_ai.Conversation.{chat_message, keep_newest, trim_history}

-- The characters of all the messages.
abbrev pub chars : List MessageRecord → ℕ
chars [] = 0
chars (m ∷ ms) = length m.text + chars ms

-- One message more, the first of those left, would break a bound.
abbrev pub IsFull : ℕ → ℕ → ℕ → ℕ → List MessageRecord → Type 0
IsFull max_chars max_messages total_chars kept [] = Unit
IsFull max_chars max_messages total_chars kept (m ∷ ms) =
    (max_chars < total_chars + length m.text) ⊎ (kept ≡ max_messages)

module _ (max_chars max_messages : ℕ) where
  -- What the loop keeps, from `kept` messages with `total_chars` characters on.
  record KeepsNewest (total_chars kept : ℕ) (messages : List MessageRecord)
      (result : List ChatMessage) : Type 0 where
    taken : List MessageRecord
    left : List MessageRecord
    splits : messages ≡ taken ++ left
    copied : result ≡ map chat_message taken
    few_chars : total_chars + chars taken ≤ max_chars
    few_messages : kept + length taken ≤ max_messages
    full : IsFull max_chars max_messages (total_chars + chars taken) (kept + length taken) left

  stops :
      (total_chars kept : ℕ) (m : MessageRecord) (ms : List MessageRecord)
      → (ltb max_chars (total_chars + length m.text) || leb max_messages kept) ≡ true
      → total_chars ≤ max_chars
      → kept ≤ max_messages
      → KeepsNewest total_chars kept (m ∷ ms) []
  stops total_chars kept m ms h few_chars few_messages = record {
    taken = [];
    left = m ∷ ms;
    splits = refl;
    copied = refl;
    few_chars = omega arith;
    few_messages = omega arith;
    full = ground arith;
  }

  IsFull-cong :
      {n n' k k' : ℕ} (left : List MessageRecord)
      → n ≡ n'
      → k ≡ k'
      → IsFull max_chars max_messages n k left
      → IsFull max_chars max_messages n' k' left
  IsFull-cong left e e' h = rw (sym e, sym e') h

  goes_on :
      (total_chars kept : ℕ) (m : MessageRecord) (ms : List MessageRecord) (rest : List ChatMessage)
      → KeepsNewest (total_chars + length m.text) (kept + 1) ms rest
      → KeepsNewest total_chars kept (m ∷ ms) (chat_message m ∷ rest)
  goes_on total_chars kept m ms rest k = record {
    taken = m ∷ k.taken;
    left = k.left;
    splits = rw k.splits;
    copied = rw k.copied;
    few_chars = omega (arith, k.few_chars);
    few_messages = omega (arith, k.few_messages);
    full = IsFull-cong k.left (omega arith) (omega arith) k.full;
  }

  keep_newest-KeepsNewest :
      (total_chars kept : ℕ) (ms : List MessageRecord)
      → total_chars ≤ max_chars
      → kept ≤ max_messages
      → KeepsNewest total_chars kept ms (keep_newest max_chars max_messages total_chars kept ms)
  unfolding keep_newest
  keep_newest-KeepsNewest total_chars kept [] hc hm = record {
    taken = [];
    left = [];
    splits = refl;
    copied = refl;
    few_chars = omega arith;
    few_messages = omega arith;
    full = tt;
  }
  keep_newest-KeepsNewest total_chars kept (m ∷ ms) hc hm =
      elim (Bool-cases (ltb max_chars (total_chars + length m.text) || leb max_messages kept)) [
        | inl stop ↦ rw stop (stops total_chars kept m ms stop hc hm)
        | inr go ↦ rw go (
            goes_on total_chars kept m ms _ (
              keep_newest-KeepsNewest (total_chars + length m.text) (kept + 1) ms (ground arith)
                (ground arith)))
      ]

length-reverse : {A : Type 0} (xs : List A) → length (reverse xs) ≡ length xs
length-reverse [] = refl
length-reverse (x ∷ xs) =
    ap length (reverse-append (x ∷ []) xs)
    ∙ omega (arith, length-append (reverse xs) (x ∷ []), length-reverse xs)

chars-append : (xs ys : List MessageRecord) → chars (xs ++ ys) ≡ chars xs + chars ys
chars-append [] ys = omega arith
chars-append (m ∷ xs) ys = omega (arith, chars-append xs ys)

chars-reverse : (xs : List MessageRecord) → chars (reverse xs) ≡ chars xs
chars-reverse [] = refl
chars-reverse (m ∷ xs) =
    ap chars (reverse-append (m ∷ []) xs)
    ∙ omega (arith, chars-append (reverse xs) (m ∷ []), chars-reverse xs)

map-reverse :
    (xs : List MessageRecord) → reverse (map chat_message xs) ≡ map chat_message (reverse xs)
map-reverse [] = refl
map-reverse (m ∷ xs) =
    reverse-append (chat_message m ∷ []) (map chat_message xs)
    ∙ (ap (λ ms. ms ++ (chat_message m ∷ [])) (map-reverse xs)
        ∙ (sym (map-append chat_message (reverse xs) (m ∷ []))
            ∙ ap (map chat_message) (sym (reverse-append (m ∷ []) xs))))

-- The newest messages of a history, as many as the bounds allow.
pub record Trimmed (max_chars max_messages : ℕ) (history : List MessageRecord)
    (result : List ChatMessage) : Type 0 where
  pub older : List MessageRecord
  pub newer : List MessageRecord
  pub splits : history ≡ older ++ newer
  pub copied : result ≡ map chat_message newer
  pub few_chars : chars newer ≤ max_chars
  pub few_messages : length newer ≤ max_messages
  pub full : IsFull max_chars max_messages (chars newer) (length newer) (reverse older)

trimmed :
    (max_chars max_messages : ℕ) (history : List MessageRecord) (result : List ChatMessage)
    → KeepsNewest max_chars max_messages 0 0 (reverse history) result
    → Trimmed max_chars max_messages history (reverse result)
trimmed max_chars max_messages history result k = record {
  older = reverse k.left;
  newer = reverse k.taken;
  splits = sym (reverse-reverse history) ∙ (ap reverse k.splits ∙ reverse-append k.taken k.left);
  copied = ap reverse k.copied ∙ map-reverse k.taken;
  few_chars = omega (arith, k.few_chars, chars-reverse k.taken);
  few_messages = omega (arith, k.few_messages, length-reverse k.taken);
  full = rw (reverse-reverse k.left) (
      IsFull-cong max_chars max_messages k.left (omega (arith, chars-reverse k.taken))
        (omega (arith, length-reverse k.taken)) k.full);
}

-- `_trim_history` returns a suffix of the history in its order, within both bounds, and one message
-- more, if there is one, would break a bound.
pub trim_history-Trimmed :
    (max_chars max_messages : ℕ) (history : List MessageRecord)
    → Trimmed max_chars max_messages history (trim_history max_chars max_messages history)
unfolding trim_history
trim_history-Trimmed max_chars max_messages history = trimmed max_chars max_messages history _ (
    keep_newest-KeepsNewest max_chars max_messages 0 0 (reverse history) (omega arith)
      (omega arith))
