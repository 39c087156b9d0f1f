-- ===== src/RuleEngine/Errors/Grouped.antt =====
-- The errors of `_parse_nft_errors` of nse/core/rule_engine.py, described without the list that its loop
-- changes: each header with the lines up to the next one.
use network_sandbox_engine.Prelude.{
  ℕ, Text, strip, split_lines, Option, Option-cases, inl, inr, none, some, List, [], ◌∷◌, ◌++◌,
  append-nil, append_assoc, ◌≡◌, refl, sym, ◌∙◌, ap,
}
use network_sandbox_engine.RuleEngine.Errors.{
  Location, NftError, nft_error_re, add_context, add_line, parse_from, parse_nft_errors,
}

-- The lines that are not blank, without the white space around them.
abbrev kept : Text → List Text → List Text
kept [] rest = rest
kept (c ∷ t) rest = (c ∷ t) ∷ rest

abbrev texts : List Text → List Text
texts [] = []
texts (l ∷ lines) = kept (strip l) (texts lines)

abbrev error_at : Option Location → Text → List Text → NftError
error_at found raw context = record { found = found; raw = raw; context = context }

-- One line more in front of lines that are grouped: a header, or a line of its own.
abbrev group_line : Option Location → Text → List Text × List NftError → List Text × List NftError
group_line (some found) t g = ([], error_at (some found) [] g.0 ∷ g.1)
group_line none t g = (t ∷ g.0, g.1)

-- The lines before the first header, and an error for each header with the lines behind it.
abbrev grouped : List Text → List Text × List NftError
grouped [] = ([], [])
grouped (t ∷ ts) = group_line (nft_error_re t) t (grouped ts)

-- Lines before the first header are an error of their own: the first one is its raw text.
abbrev unlocated : List Text → List NftError
unlocated [] = []
unlocated (t ∷ ts) = error_at none t ts ∷ []

abbrev pub described : Text → List NftError
described stderr =
    let (before, errors) = grouped (texts (split_lines stderr)) in unlocated before ++ errors

add_context-last :
    (t : Text) (es : List NftError) (f : Option Location) (raw : Text) (ctx : List Text)
    → add_context t (es ++ error_at f raw ctx ∷ []) ≡ es ++ error_at f raw (ctx ++ t ∷ []) ∷ []
unfolding add_context
add_context-last t [] f raw ctx = refl
add_context-last t (e ∷ []) f raw ctx = refl
add_context-last t (e ∷ e' ∷ es) f raw ctx =
    ap (λ l. e ∷ l) (add_context-last t (e' ∷ es) f raw ctx)

-- The loop, on the lines that are not blank.
abbrev add_text : Option Location → Text → List NftError → List NftError
add_text (some found) t errors = errors ++ error_at (some found) [] [] ∷ []
add_text none t errors = add_context t errors

abbrev add_texts : List Text → List NftError → List NftError
add_texts [] errors = errors
add_texts (t ∷ ts) errors = add_texts ts (add_text (nft_error_re t) t errors)

add_line-text :
    (t : Text) (es : List NftError) (c : ℕ)
    → add_line (c ∷ t) es ≡ add_text (nft_error_re (c ∷ t)) (c ∷ t) es
unfolding add_line
add_line-text t es c = elim (Option-cases (nft_error_re (c ∷ t))) [
  | inl n ↦ rw (n, add_line) refl
  | inr (found, n) ↦ rw (n, add_line) refl
]

add_line-kept :
    (t : Text) (ts : List Text) (es : List NftError)
    → add_texts ts (add_line t es) ≡ add_texts (kept t ts) es
unfolding add_line
add_line-kept [] ts es = refl
add_line-kept (c ∷ t) ts es = ap (add_texts ts) (add_line-text t es c)

parse_from-texts :
    (lines : List Text) (es : List NftError) → parse_from lines es ≡ add_texts (texts lines) es
unfolding parse_from
parse_from-texts [] es = refl
parse_from-texts (l ∷ lines) es =
    parse_from-texts lines (add_line (strip l) es) ∙ add_line-kept (strip l) (texts lines) es

-- Behind an error, the lines up to the next header are its context.
Follows : List Text → Type 0
Follows ts =
    (es : List NftError) (f : Option Location) (raw : Text) (ctx : List Text)
    → add_texts ts (es ++ error_at f raw ctx ∷ [])
      ≡ es ++ error_at f raw (ctx ++ (grouped ts).0) ∷ (grouped ts).1

add_text-Follows :
    (o : Option Location) (t : Text) (ts : List Text)
    → Follows ts
    → (es : List NftError) (f : Option Location) (raw : Text) (ctx : List Text)
    → let g = group_line o t (grouped ts) in
      add_texts ts (add_text o t (es ++ error_at f raw ctx ∷ []))
      ≡ es ++ error_at f raw (ctx ++ g.0) ∷ g.1
unfolding Follows
add_text-Follows none t ts ih es f raw ctx =
    ap (add_texts ts) (add_context-last t es f raw ctx)
    ∙ ih es f raw (ctx ++ t ∷ [])
    ∙ ap (λ l. es ++ error_at f raw l ∷ (grouped ts).1) (append_assoc ctx (t ∷ []) (grouped ts).0)
add_text-Follows (some found) t ts ih es f raw ctx =
    let e = error_at (some found) [] (grouped ts).0 in
    ih (es ++ error_at f raw ctx ∷ []) (some found) [] []
    ∙ append_assoc es (error_at f raw ctx ∷ []) (e ∷ (grouped ts).1)
    ∙ ap (λ l. es ++ error_at f raw l ∷ (e ∷ (grouped ts).1)) (sym (append-nil ctx))

add_texts-Follows : (ts : List Text) → Follows ts
unfolding Follows
add_texts-Follows [] es f raw ctx = ap (λ l. es ++ error_at f raw l ∷ []) (sym (append-nil ctx))
add_texts-Follows (t ∷ ts) es f raw ctx =
    add_text-Follows (nft_error_re t) t ts (add_texts-Follows ts) es f raw ctx

add_text-first :
    (o : Option Location) (t : Text) (ts : List Text)
    → let g = group_line o t (grouped ts) in add_texts ts (add_text o t []) ≡ unlocated g.0 ++ g.1
unfolding add_context Follows
add_text-first none t ts = add_texts-Follows ts [] none t []
add_text-first (some found) t ts = add_texts-Follows ts [] (some found) [] []

add_texts-first : (ts : List Text) → add_texts ts [] ≡ unlocated (grouped ts).0 ++ (grouped ts).1
add_texts-first [] = refl
add_texts-first (t ∷ ts) = add_text-first (nft_error_re t) t ts

-- The loop over nft's output makes one error for each header, in order, with the location that the header
-- gives and the lines up to the next header as its context. Lines before the first header are one error
-- more at the front, with the first of them as its raw text and the others as its context. Blank lines
-- are left out, and each other line stands without the white space around it.
pub parse_nft_errors-eq : (stderr : Text) → parse_nft_errors stderr ≡ described stderr
unfolding parse_nft_errors
parse_nft_errors-eq stderr =
    parse_from-texts (split_lines stderr) [] ∙ add_texts-first (texts (split_lines stderr))
