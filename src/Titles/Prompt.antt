-- ===== src/Titles/Prompt.antt =====
-- `Prompt`, `sample` and `truncate` of internal/titles/prompt.go. What the regular expressions do to a message (`cleanMessage`),
-- the runes of a text and decimal numbers are parameters.
pub mod Sampled
use traicr.Prelude.{
  ℕ, zero, suc, ◌+◌, ◌-◌, ◌*◌, ◌/◌, ◌%◌, ◌^◌, ◌≤◌, ◌<◌, min, max, ◌≡◌, refl, sym, ap, ◌∙◌, ◌≢◌, ◌↔◌,
  ◌⊎◌, inl, inr, Bool, true, false, not, ◌&&◌, ◌||◌, Option, none, some, List, [], ◌∷◌, ◌++◌, map,
  arith, ltb, leb, ◌==◌, if◌then◌else◌, ltb→lt, leb→le, ==_iff, Bool-cases, Option-cases, length,
  get_elem?, take, drop, slice, length-append, length-take, length-drop, take-append-drop,
  take_whole, length-ne-nil, Member, here, there, Member-append_left, Member-append_right, All,
  All-append, All-members, append_nil, append_assoc, Text, codes, text_eq, text_eq_iff,
  text_eq_refl, text_eq-ne, text_leb, text_leb_refl, text_leb_trans, text_leb_total,
  text_leb_antisym, has_prefix, contains_byte, count_byte, Result, ok, err, ok-injective,
  Result-cases, bind-eq-ok, refuse_if, refuse_if-eq-ok, ◌>>=◌, ◌>>◌,
}

-- store.TitleSource
pub record TitleSource : Type 0 where
  pub harness : Text
  pub working_directory : Text
  pub repository : Text
  pub user_messages : List Text
  pub last_assistant_message : Text

pub record Texts : Type 0 where
  pub clean : Text → Text
  pub rune_count : Text → ℕ
  pub first_runes : ℕ → Text → Text
  pub trim_space : Text → Text
  pub decimal : ℕ → Text
  pub introduction : Text
  pub conclusion : Text

abbrev pub max_prompt_runes : ℕ
max_prompt_runes = 16000

abbrev pub max_message_runes : ℕ
max_message_runes = 2000

abbrev pub max_assistant_runes : ℕ
max_assistant_runes = 1500

-- What `sample` gives.
pub record Sample : Type 0 where
  pub head : List Text
  pub tail : List Text
  pub omitted : ℕ

module _ (texts : Texts) where
  -- `total`
  unfoldable pub total_runes : List Text → ℕ
  total_runes [] = 0
  total_runes (m ∷ messages) = texts.rune_count m + total_runes messages

  -- The loop that moves `end` down: the argument is `end`, its messages are those before it; the results are `end` and `used`.
  unfoldable pub take_end : List Text → ℕ → ℕ → ℕ → ℕ × ℕ
  take_end messages budget zero used = (zero, used)
  take_end messages budget (suc before) used =
      let size : ℕ = elim (get_elem? messages before) [ none ↦ 0 | some m ↦ texts.rune_count m ] in
      let rest = take_end messages budget before (used + size) in
      if ltb (budget / 3) (used + size) && ltb (suc before) (length messages)
      then (suc before, used)
      else rest

  -- The loop that moves `start` up, over the messages from `start` to `end`; the result is `start`.
  unfoldable pub take_start : ℕ → ℕ → ℕ → List Text → ℕ
  take_start budget start used [] = start
  take_start budget start used (m ∷ messages) =
      let rest = take_start budget (start + 1) (used + texts.rune_count m) messages in
      if ltb budget (used + texts.rune_count m) && ltb 0 start then start else rest

  -- `sample`
  unfoldable pub sample : List Text → ℕ → Sample
  sample messages budget =
      if leb (total_runes messages) budget
      then record { head = messages; tail = []; omitted = 0 }
      else let ended = take_end messages budget (length messages) 0 in
        let start = take_start budget 0 ended.1 (take ended.0 messages) in
        record {
          head = take start messages;
          tail = drop ended.0 messages;
          omitted = ended.0 - start;
        }

  -- `truncate`; the ellipsis is in UTF-8.
  unfoldable pub truncate : Text → ℕ → Text
  truncate text limit =
      if leb (texts.rune_count text) limit
      then text
      else texts.trim_space (texts.first_runes limit text) ++ (b' ' ∷ 226 ∷ 128 ∷ 166 ∷ [])

  -- The messages that are left when they are cleaned and cut.
  unfoldable pub cleaned : List Text → List Text
  cleaned [] = []
  cleaned (m ∷ messages) =
      let rest = cleaned messages in
      let text = truncate (texts.clean m) max_message_runes in
      if text_eq text [] then rest else text ∷ rest

  -- `fmt.Fprintf(&b, "\nUser message %d:\n%s\n", number, message)` for each message, from this number on.
  unfoldable pub print_messages : ℕ → List Text → Text
  print_messages number [] = []
  print_messages number (m ∷ messages) =
      (b'\n' ∷ codes "User message ")
      ++ (texts.decimal number
          ++ (codes ":" ++ (b'\n' ∷ (m ++ (b'\n' ∷ print_messages (number + 1) messages)))))

  unfoldable pub print_line : Text → Text → Text
  print_line label value = if text_eq value [] then [] else label ++ (value ++ (b'\n' ∷ []))

  unfoldable pub print_omitted : ℕ → Text
  print_omitted omitted =
      if omitted == 0
      then []
      else (b'\n' ∷ codes "[")
        ++ (texts.decimal omitted ++ (codes " user messages omitted]" ++ (b'\n' ∷ [])))

  unfoldable pub print_final : Text → Text
  print_final text =
      if text_eq text []
      then []
      else (b'\n' ∷ codes "Final assistant message:") ++ (b'\n' ∷ (text ++ (b'\n' ∷ [])))

  -- `Prompt`; introduction and conclusion are the fixed text around the excerpt.
  unfoldable pub prompt : TitleSource → Text
  prompt source =
      let messages = cleaned source.user_messages in
      let s = sample messages max_prompt_runes in
      if length messages == 0
      then []
      else texts.introduction
        ++ ((codes "Harness: " ++ (source.harness ++ (b'\n' ∷ [])))
            ++ (print_line (codes "Repository: ") source.repository
                ++ (print_line (codes "Working directory: ") source.working_directory
                    ++ (print_messages 1 s.head
                        ++ (print_omitted s.omitted
                            ++ (print_messages ((length messages - length s.tail) + 1) s.tail
                                ++ (print_final (
                                      truncate (texts.clean source.last_assistant_message)
                                        max_assistant_runes)
                                    ++ texts.conclusion)))))))
