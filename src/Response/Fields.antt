-- ===== src/Response/Fields.antt =====
-- Reading back the fields of a response of src/response.cc.
use gitstatus.Response.{
  Field, int, print, prints, view, destroy, Writer, digits, new_writer, safe_char, safe_print,
  show_int,
}
use gitstatus.Common.{
  false, ◌∙◌, All-append, Bool-cases, List, [], ap, arith, if◌then◌else◌, inl, inr, ltb, map, refl,
  suc, zero, ℕ, ◌%◌, ◌++◌, ◌+◌, ◌/◌, ◌==◌, ◌∷◌, ◌≡◌, ◌≢◌,
}
use gitstatus.Common.Outcome.{ok}
use gitstatus.Common.Int.{negsuc, pos, ℤ}
use gitstatus.Request.{field_sep, msg_sep}
use gitstatus.Text.{Bytes}
use gitstatus.Text.Find.{Lacks}
use mathlib.Core.List.{append-nil, append_assoc}
use mathlib.Core.Path.{subst}

abbrev cons_head : ℕ → List Bytes → List Bytes
cons_head b [] = (b ∷ []) ∷ []
cons_head b (f ∷ fs) = (b ∷ f) ∷ fs

-- A string cut at every c.
unfoldable pub split : ℕ → Bytes → List Bytes
split c [] = [] ∷ []
split c (b ∷ s) = let rest = split c s in if b == c then [] ∷ rest else cons_head b rest

pub split-Lacks : (c : ℕ) (s : Bytes) → Lacks c s → split c s ≡ s ∷ []
unfolding split
split-Lacks c [] h = refl
split-Lacks c (b ∷ s) h = ground (arith, split-Lacks c s h.1)

split-ne-nil : (c : ℕ) (s : Bytes) → split c s ≢ []
unfolding split
split-ne-nil c [] h = cc
split-ne-nil c (b ∷ s) h = ground (arith, split-ne-nil c s)

cons_head-append :
    (b : ℕ) (fs gs : List Bytes) → fs ≢ [] → cons_head b (fs ++ gs) ≡ cons_head b fs ++ gs
cons_head-append b [] gs h = absurd (h refl)
cons_head-append b (f ∷ fs) gs h = refl

pub split-append : (c : ℕ) (s f : Bytes) → Lacks c f → split c (s ++ c ∷ f) ≡ split c s ++ f ∷ []
unfolding split
split-append c [] f h = ground (arith, split-Lacks c f h)
split-append c (b ∷ s) f h =
    ground (arith, split-append c s f h, cons_head-append b (split c s) (f ∷ []) (split-ne-nil c s))

-- Bytes that are neither separator.
abbrev pub Clean : Bytes → Type 0
Clean s = Lacks field_sep s × Lacks msg_sep s

safe_char_clean : (c : ℕ) → (safe_char c ≢ field_sep) × (safe_char c ≢ msg_sep)
unfolding safe_char
safe_char_clean c = ground arith

pub safe_print-Clean : (s : Bytes) → Clean (safe_print s)
unfolding safe_print
safe_print-Clean [] = (tt, tt)
safe_print-Clean (c ∷ s) =
    let rest = safe_print-Clean s in
    let here = safe_char_clean c in ((here.0, rest.0), (here.1, rest.1))

pub Clean-append : (s t : Bytes) → Clean s → Clean t → Clean (s ++ t)
Clean-append s t h k = (All-append _ s t h.0 k.0, All-append _ s t h.1 k.1)

digit-Clean : (n : ℕ) → Clean ((b'0' + n % 10) ∷ [])
digit-Clean n = ((ground arith, tt), (ground arith, tt))

digits-Clean : (fuel n : ℕ) → Clean (digits fuel n)
unfolding digits
digits-Clean zero n = digit-Clean n
digits-Clean (suc fuel) n = elim (Bool-cases (ltb n 10)) [
  | inl e ↦ rw (e, digits) (digit-Clean n)
  | inr e ↦
      rw (e, digits)
        (Clean-append (digits fuel (n / 10)) _ (digits-Clean fuel (n / 10)) (digit-Clean n))
]

pub show_int-Clean : (v : ℤ) → Clean (show_int v)
unfolding show_int
show_int-Clean (pos n) = digits-Clean n n
show_int-Clean (negsuc n) =
    let rest = digits-Clean (suc n) (suc n) in ((omega arith, rest.0), (omega arith, rest.1))

abbrev pub field_text : Field → Bytes
field_text (int v) = show_int v
field_text (view s) = safe_print s

field_text-Clean : (f : Field) → Clean (field_text f)
field_text-Clean (int v) = show_int-Clean v
field_text-Clean (view s) = safe_print-Clean s

print_strm : (w : Writer) (f : Field) → (print w f).strm ≡ w.strm ++ field_sep ∷ field_text f
unfolding print
print_strm w (int v) = refl
print_strm w (view s) = refl

-- The writer's text is free of the message separator, and cuts into these fields.
pub record Holds (w : Writer) (fields : List Bytes) : Type 0 where
  pub no_sep : Lacks msg_sep w.strm
  pub splits : split field_sep w.strm ≡ fields

print-Holds :
    (w : Writer) (f : Field) (fields : List Bytes)
    → Holds w fields
    → Holds (print w f) (fields ++ field_text f ∷ [])
print-Holds w f fields h = record {
  no_sep = rw (print_strm w f) (
      All-append _ w.strm (field_sep ∷ field_text f) h.no_sep
        (omega arith, (field_text-Clean f).1));
  splits =
      rw (print_strm w f, split-append field_sep w.strm (field_text f) (field_text-Clean f).0)
        (ap (λ x. x ++ field_text f ∷ []) h.splits);
}

prints-Holds :
    (w : Writer) (fs : List Field) (fields : List Bytes)
    → Holds w fields
    → Holds (prints w fs) (fields ++ map field_text fs)
unfolding prints
prints-Holds w [] fields h = rw (append-nil fields) h
prints-Holds w (f ∷ fs) fields h =
    subst (Holds (prints (print w f) fs)) (append_assoc fields (field_text f ∷ []) _)
      (prints-Holds (print w f) fs (fields ++ field_text f ∷ []) (print-Holds w f fields h))

-- Whatever is printed, the response holds the request's id, a 1 and the printed fields, cut at the
-- field separators, and the message separator does not occur in it.
pub prints-new_writer :
    (id : Bytes) (fs : List Field)
    → Holds (prints (new_writer id) fs) (safe_print id ∷ (b'1' ∷ []) ∷ map field_text fs)
prints-new_writer id fs = prints-Holds (new_writer id) fs (safe_print id ∷ (b'1' ∷ []) ∷ []) start
  where
    clean : Clean (safe_print id)
    clean = safe_print-Clean id

    start : Holds (new_writer id) (safe_print id ∷ (b'1' ∷ []) ∷ [])
    start = record {
      no_sep = unfold new_writer in All-append _ (safe_print id) _ clean.1 (omega arith);
      splits =
          unfold new_writer in
          split-append field_sep (safe_print id) (b'1' ∷ []) (omega arith)
          ∙ ap (λ x. x ++ (b'1' ∷ []) ∷ []) (split-Lacks field_sep (safe_print id) clean.0);
    }

-- The response of a writer that is destroyed unfinished holds the id and a 0, and nothing else.
pub destroy-Holds :
    (w : Writer)
    → w.done ≡ false
    → (msg : Bytes) × (destroy w ≡ ok (msg ++ msg_sep ∷ []))
      × Lacks msg_sep msg
      × (split field_sep msg ≡ safe_print w.request_id ∷ (b'0' ∷ []) ∷ [])
unfolding destroy
destroy-Holds w h = (
  safe_print w.request_id ++ field_sep ∷ b'0' ∷ [],
  rw (h, destroy) refl,
  All-append _ (safe_print w.request_id) _ clean.1 (omega arith),
  split-append field_sep (safe_print w.request_id) (b'0' ∷ []) (omega arith)
      ∙ ap (λ x. x ++ (b'0' ∷ []) ∷ []) (split-Lacks field_sep (safe_print w.request_id) clean.0),
)
  where
    clean : Clean (safe_print w.request_id)
    clean = safe_print-Clean w.request_id
