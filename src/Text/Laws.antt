-- ===== src/Text/Laws.antt =====
-- Facts about texts that begin with a known text.
use admissorium.Prelude.{String, ◌≡◌, true, false, starts_with, eq_refl}
use admissorium.Text.{◌⧺◌, is_empty, drop_chars}
use Prim.Native.String.{count}
use text.Mathlib.TextLemmas.{nil-append, cons-append, length-cons}
use text.Mathlib.TextPositions.{slice-append_left}

pub starts_with-append : (s t : String) → starts_with (s ⧺ t) s ≡ true
starts_with-append s t = rw slice-append_left (eq_refl s)

pub drop_chars-append : (s t : String) → drop_chars (count s) (s ⧺ t) ≡ t
drop_chars-append String.[] t = rw nil-append
drop_chars-append (String.◌∷◌ c s) t = rw (length-cons, cons-append) (drop_chars-append s t)

pub is_empty-append : (s t : String) → is_empty s ≡ false → is_empty (s ⧺ t) ≡ false
is_empty-append String.[] t h = cc
is_empty-append (String.◌∷◌ c s) t h = rw cons-append
