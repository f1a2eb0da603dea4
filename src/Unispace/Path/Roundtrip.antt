-- ===== src/Unispace/Path/Roundtrip.antt =====
-- The parser of kernel/src/unispace/path.rs reads back what the canonical form of a path writes.
use mathlib.Core.List.{append_assoc}
use bedrock_stack.Base.{
  ℕ, ◌+◌, ◌≡◌, refl, ap, ◌∙◌, sym, subst, ◌≢◌, false, not, Option, none, some, List, [], ◌∷◌, ◌++◌,
  arith, Str, split, contains, filter, any, All, is_empty, take, drop, length, take-append,
  drop-append, IsPiece, ok, join, split-join, All-append, contains-append,
}
use bedrock_stack.Unispace.Path.{
  slash, colon, segments, pop_last, split_method, split_at, find, find_from, bad_component, checked,
  parse_segments, parse, with_selector, strip_slash,
}
use bedrock_stack.Unispace.Path.Components.{IsComponent, IsSelector}

-- `a/b/c` or `a/b/c:m`.
unfoldable pub print : List Str → Option Str → Str
print cs none = join slash cs
print cs (some m) = join slash cs ++ (colon ∷ m)

find_from-free : (i : ℕ) (w : Str) → contains colon w ≡ false → find_from i colon w ≡ none
unfolding find_from contains
find_from-free i [] h = refl
find_from-free i (x ∷ w) h = ground (arith, find_from-free (i + 1) w)

find_from-append :
    (i : ℕ) (w s : Str)
    → contains colon w ≡ false
    → find_from i colon (w ++ (colon ∷ s)) ≡ some (i + length w)
unfolding find_from contains
find_from-append i [] s h = ground arith
find_from-append i (x ∷ w) s h = ground (arith, find_from-append (i + 1) w s)

-- What `pop_last` takes off can be put back.
pop_last-append : (w v : Str) (ws : List Str) → pop_last w (ws ++ (v ∷ [])) ≡ (w ∷ ws, v)
unfolding pop_last
pop_last-append w v [] = refl
pop_last-append w v (u ∷ ws) = rw (pop_last-append u v ws)

strip-segments : (s : Str) → segments (strip_slash s) ≡ segments s
unfolding strip_slash segments split
strip-segments [] = refl
strip-segments (c ∷ s) = ground arith

-- A leading slash makes no difference: a path is always resolved from the root.
pub parse-slash : (s : Str) → parse (slash ∷ s) ≡ parse s
unfolding parse
parse-slash s = ap parse_segments (sym (strip-segments s))

join-cons : (w : Str) (ws : List Str) → ws ≢ [] → join slash (w ∷ ws) ≡ w ++ (slash ∷ join slash ws)
unfolding join
join-cons w [] h = absurd (h refl)
join-cons w (v ∷ ws) h = refl

snoc-ne-nil : (ws : List Str) (w : Str) → ws ++ (w ∷ []) ≢ []
snoc-ne-nil [] w = λ e. cc
snoc-ne-nil (v ∷ ws) w = λ e. cc

-- Text behind a joined path is text behind its last component.
join-snoc :
    (ws : List Str) (w s : Str)
    → join slash (ws ++ (w ∷ [])) ++ s ≡ join slash (ws ++ ((w ++ s) ∷ []))
join-snoc [] w s = unfold join in refl
join-snoc (v ∷ ws) w s =
    rw
      (
        join-cons v (ws ++ (w ∷ [])) (snoc-ne-nil ws w),
        join-cons v (ws ++ ((w ++ s) ∷ [])) (snoc-ne-nil ws (w ++ s)),
        append_assoc v (slash ∷ join slash (ws ++ (w ∷ []))) s,
      )
      (ap (λ r. v ++ (slash ∷ r)) (join-snoc ws w s))

-- A joined path goes on with one more component behind a slash.
pub join-child :
    (w : Str) (ws : List Str) (v : Str)
    → join slash (w ∷ ws) ++ (slash ∷ v) ≡ join slash (w ∷ (ws ++ (v ∷ [])))
unfolding join
join-child w [] v = refl
join-child w (u ∷ ws) v =
    append_assoc w (slash ∷ join slash (u ∷ ws)) (slash ∷ v)
    ∙ ap (λ r. w ++ (slash ∷ r)) (join-child u ws v)

pub is_empty-join :
    (w : Str) (ws : List Str) → IsPiece slash w → is_empty (join slash (w ∷ ws)) ≡ false
unfolding join
is_empty-join [] ws h = absurd (h.0 refl)
is_empty-join (x ∷ w) [] h = refl
is_empty-join (x ∷ w) (v ∷ ws) h = refl

pub filter-All : (ws : List Str) → All (IsPiece slash) ws → filter (λ w. not (is_empty w)) ws ≡ ws
filter-All [] a = refl
filter-All ([] ∷ ws) a = absurd (a.0.0 refl)
filter-All ((x ∷ w) ∷ ws) a = ap (λ r. (x ∷ w) ∷ r) (filter-All ws a.1)

free : (ws : List Str) → All (IsPiece slash) ws → All (λ w. contains slash w ≡ false) ws
free [] a = tt
free (w ∷ ws) a = (a.0.1, free ws a.1)

segments-join_ne_nil :
    (ws : List Str) → ws ≢ [] → All (IsPiece slash) ws → segments (join slash ws) ≡ ws
unfolding segments
segments-join_ne_nil ws h a = rw (split-join slash ws h (free ws a)) (filter-All ws a)

pub segments-join : (ws : List Str) → All (IsPiece slash) ws → segments (join slash ws) ≡ ws
segments-join [] a = unfold segments join split in refl
segments-join (w ∷ ws) a = segments-join_ne_nil (w ∷ ws) (λ e. cc) a

-- `parse_segments` on a list whose last piece is known.
parse_segments-snoc :
    (ws : List Str) (w : Str) → parse_segments (ws ++ (w ∷ [])) ≡ with_selector ws (split_method w)
unfolding parse_segments
parse_segments-snoc [] w = unfold pop_last in refl
parse_segments-snoc (v ∷ ws) w =
    ap (λ (r : List Str × Str). with_selector r.0 (split_method r.1)) (pop_last-append v w ws)

split_method-plain : (w : Str) → contains colon w ≡ false → split_method w ≡ ok (w, none)
unfolding split_method find
split_method-plain w h = rw (find_from-free 0 w h, split_method)

split_at_name :
    (w m : Str) (pos : ℕ)
    → w ≢ []
    → m ≢ []
    → pos ≡ length w
    → take pos (w ++ (colon ∷ m)) ≡ w
    → drop (pos + 1) (w ++ (colon ∷ m)) ≡ m
    → split_at (w ++ (colon ∷ m)) pos ≡ ok (w, some m)
unfolding split_at
split_at_name [] m pos n k e t d = absurd (n refl)
split_at_name (x ∷ w) [] pos n k e t d = absurd (k refl)
split_at_name (x ∷ w) (y ∷ m) pos n k e t d = ground (arith, t, d, e)

split_method-selector :
    (w m : Str)
    → contains colon w ≡ false
    → w ≢ []
    → m ≢ []
    → split_method (w ++ (colon ∷ m)) ≡ ok (w, some m)
unfolding split_method find
split_method-selector w m h n k =
    let found : find colon (w ++ (colon ∷ m)) ≡ some (length w) =
      rw (find_from-append 0 w m h) (ap some (omega arith)) in
    rw (found, split_method)
      (split_at_name w m (length w) n k refl (take-append w (colon ∷ m)) (drop-append colon w m))

parts : (ws : List Str) → All IsComponent ws → All (IsPiece slash) ws
parts [] a = tt
parts (w ∷ ws) a = (a.0.0, parts ws a.1)

fine : (ws : List Str) → All IsComponent ws → any bad_component ws ≡ false
fine [] a = refl
fine (w ∷ ws) a = ground (arith, a.0.1, fine ws a.1)

fine_last : (ws : List Str) (w : Str) → All IsComponent (ws ++ (w ∷ [])) → IsComponent w
fine_last [] w a = a.0
fine_last (v ∷ ws) w a = fine_last ws w a.1

front : (ws : List Str) (w : Str) → All IsComponent (ws ++ (w ∷ [])) → All (IsPiece slash) ws
front [] w a = tt
front (v ∷ ws) w a = (a.0.0, front ws w a.1)

no_colon : (w : Str) → IsComponent w → contains colon w ≡ false
unfolding bad_component
no_colon w h = ground (arith, h.1)

with_last :
    (ws : List Str) (w : Str)
    → All (IsPiece slash) ws
    → IsPiece slash w
    → All (IsPiece slash) (ws ++ (w ∷ []))
with_last ws w a h = All-append (IsPiece slash) ws (w ∷ []) a (h, tt)

append-ne-nil : (w m : Str) → w ++ (colon ∷ m) ≢ []
append-ne-nil [] m = λ e. cc
append-ne-nil (x ∷ w) m = λ e. cc

parse-print_snoc :
    (ws : List Str) (w : Str) (m : Option Str)
    → All IsComponent (ws ++ (w ∷ []))
    → IsSelector m
    → parse (print (ws ++ (w ∷ [])) m) ≡ ok (record { components = ws ++ (w ∷ []); method = m })
unfolding parse print checked
parse-print_snoc ws w none a s =
    let cs = ws ++ (w ∷ []) in
    let e : segments (strip_slash (join slash cs)) ≡ cs =
      strip-segments (join slash cs) ∙ segments-join cs (parts cs a) in
    rw
      (e, parse_segments-snoc ws w, split_method-plain w (no_colon w (fine_last ws w a)), fine cs a)
parse-print_snoc ws w (some m) a s =
    let c = fine_last ws w a in
    let last = w ++ (colon ∷ m) in
    let cs = ws ++ (last ∷ []) in
    let e : segments (strip_slash (join slash cs)) ≡ cs =
      strip-segments (join slash cs)
      ∙ segments-join cs (
          with_last ws last (front ws w a) (
            append-ne-nil w m,
            contains-append slash w (colon ∷ m) c.0.1 (unfold contains in s.1),
          )) in
    rw (
      join-snoc ws w (colon ∷ m),
      e,
      parse_segments-snoc ws last,
      split_method-selector w m (no_colon w c) c.0.0 s.0,
      fine (ws ++ (w ∷ [])) a,
    )

unsnoc : (w : Str) (ws : List Str) → (vs : List Str) × (v : Str) × (w ∷ ws ≡ vs ++ (v ∷ []))
unsnoc w [] = ([], w, refl)
unsnoc w (u ∷ ws) = let r = unsnoc u ws in (w ∷ r.0, r.1, ap (λ t. w ∷ t) r.2)

-- Writing a path and parsing it returns the path: for every non-empty list of components (each not
-- empty, without `/` and `:`, and not `.` or `..`) and every selector (absent, or not empty and
-- without `/`).
pub parse-print :
    (cs : List Str) (m : Option Str)
    → cs ≢ []
    → All IsComponent cs
    → IsSelector m
    → parse (print cs m) ≡ ok (record { components = cs; method = m })
parse-print [] m n a s = absurd (n refl)
parse-print (w ∷ ws) m n a s =
    let r = unsnoc w ws in
    subst (λ cs. parse (print cs m) ≡ ok (record { components = cs; method = m })) (sym r.2)
      (parse-print_snoc r.0 r.1 m (subst (All IsComponent) r.2 a) s)
