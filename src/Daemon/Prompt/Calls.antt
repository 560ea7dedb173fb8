-- ===== src/Daemon/Prompt/Calls.antt =====
-- The scan for tool calls ends.
use qw.Base.{
  ℕ, zero, suc, ◌+◌, ◌-◌, ◌≤◌, ◌<◌, List, [], ◌∷◌, Option, none, some, length, slice, ◌≡◌, ◌≢◌,
  refl, ap, ◌∙◌, sym, arith, Option-cases, inl, inr, ◌>>=◌, leb→le,
}
use qw.Tokenizer.Table.{Bytes}
use qw.Tokenizer.Encode.{strstr_from}
use qw.Tokenizer.Encode.Chunks.{strstr_lem, strstr_found}
use qw.Daemon.Texts.{call_tag, call_end_tag}
use qw.Daemon.Prompt.{
  trimmed, bodies_from, from_start, to_end, items_of, in_brackets, extract_tool_calls_json,
}

-- What `strstr` finds lies behind the place it starts at, and within the text.
pub strstr_from_bounds :
    (text : Bytes) (p fp : ℕ) (pat : Bytes)
    → strstr_from text p pat ≡ some fp
    → (p ≤ fp) × (fp + length pat ≤ length text)
strstr_from_bounds text p fp pat e =
    let found = strstr_found text p (suc (length text - p)) p fp pat e in
    (
      elim (strstr_lem text p (suc (length text - p)) p pat) [
        | inl (f, all) ↦ let bad : none ≡ some fp = sym f ∙ e in cc
        | inr (at, f, lo, before) ↦
            let both : some at ≡ some fp = sym f ∙ e in let same : at ≡ fp = cc in omega arith
      ],
      ground (arith, leb→le (fp + length pat) (length text)),
    )

and_rest : (b : Bytes) (o : Option (List Bytes)) → o ≢ none → (o >>= λ rest. some (b ∷ rest)) ≢ none
and_rest b none h f = h refl
and_rest b (some rest) h f = cc

bodies_from_total :
    (fuel : ℕ) (text : Bytes) (p : ℕ)
    → length text < p + fuel
    → p ≤ length text
    → bodies_from fuel text p ≢ none
unfolding bodies_from
bodies_from_total zero text p h le = absurd (omega arith)
bodies_from_total (suc fuel) text p h le = elim (Option-cases (strstr_from text p call_tag)) [
  | inl e ↦ λ f.
      let bad : some [] ≡ none = sym (ap (from_start text (λ q. bodies_from fuel text q)) e) ∙ f in
      cc
  | inr (start, e) ↦ elim (Option-cases (strstr_from text start call_end_tag)) [
    | inl g ↦ λ f.
        let bad : some [] ≡ none =
          sym (
            ap (from_start text (λ q. bodies_from fuel text q)) e
            ∙ ap (to_end text (λ q. bodies_from fuel text q) start) g)
          ∙ f in
        cc
    | inr (end, g) ↦
        let a = strstr_from_bounds text p start call_tag e in
        let b = strstr_from_bounds text start end call_end_tag g in
        let rest = bodies_from_total fuel text (end + length call_end_tag) (omega arith) b.1 in
        λ f.
          and_rest (trimmed (slice text (start + length call_tag) end))
            (bodies_from fuel text (end + length call_end_tag)) rest
            (sym (
                ap (from_start text (λ q. bodies_from fuel text q)) e
                ∙ ap (to_end text (λ q. bodies_from fuel text q) start) g)
              ∙ f)
  ]
]

-- On every text the scan for tool calls ends, with a list of them or NULL.
pub extract_tool_calls_json_total : (text : Bytes) → extract_tool_calls_json text ≢ none
unfolding extract_tool_calls_json
extract_tool_calls_json_total text = elim (Option-cases (bodies_from (suc (length text)) text 0)) [
  | inl e ↦ absurd (bodies_from_total (suc (length text)) text 0 (omega arith) (omega arith) e)
  | inr (bodies, e) ↦ λ f.
      let bad : some (in_brackets (items_of none bodies)) ≡ none =
        sym (ap (λ o. o >>= λ b. some (in_brackets (items_of none b))) e) ∙ f in
      cc
]
