-- ===== src/Text/Overloads.antt =====
-- The overloads of `StrCmp` of src/string_cmp.h on views and on strings.
use gitstatus.Common.{Bool, arith, map, refl, suc, sym, zero, ◌∙◌, ◌≡◌}
use gitstatus.Common.Int.{neg, negsuc, pos, sign, ℤ}
use gitstatus.Text.{Bytes, NoNul, cmp_str_view, cmp_strs, cmp_view_str, cmp_views, key}
use gitstatus.Text.Compare.{cmp_strs-lex, cmp_view_str-lex, cmp_views-lex}
use gitstatus.Text.Lex.{lex-swap, swap}

sign-neg : (a : ℤ) → sign (neg a) ≡ swap (sign a)
sign-neg (pos zero) = refl
sign-neg (pos (suc n)) = ground arith
sign-neg (negsuc n) = ground arith

-- On strings without null characters, whose characters may or may not be compared in lower case,
-- the four overloads of `StrCmp` on views and strings agree in their sign.
pub overloads_agree :
    (cs : Bool) (x y : Bytes)
    → NoNul x
    → NoNul y
    → (sign (cmp_strs cs x y) ≡ sign (cmp_views cs x y))
      × (sign (cmp_view_str cs x y) ≡ sign (cmp_views cs x y))
      × (sign (cmp_str_view cs x y) ≡ sign (cmp_views cs x y))
overloads_agree cs x y hx hy = (
  cmp_strs-lex cs x y hx hy ∙ sym (cmp_views-lex cs x y),
  cmp_view_str-lex cs x y hx hy ∙ sym (cmp_views-lex cs x y),
  turned,
)
  where
    turned : sign (cmp_str_view cs x y) ≡ sign (cmp_views cs x y)
    turned =
        unfold cmp_str_view in
        cc (
          sign-neg (cmp_view_str cs y x),
          cmp_view_str-lex cs y x hy hx,
          lex-swap (map (key cs) y) (map (key cs) x),
          cmp_views-lex cs x y,
        )
