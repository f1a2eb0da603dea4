-- ===== src/Caps/Validate/Canonical.antt =====
-- What `validate_cap` of kernel/src/caps/mod.rs accepts is canonical.
use bedrock_stack.Base.{
  ◌≤◌, ◌≡◌, refl, inl, inr, false, Option, none, some, List, [], ◌∷◌, Str, split, join, contains,
  length, All, All-split, All-of_any-false, arith, Bool-cases, ok, join-split, IsPiece,
}
use bedrock_stack.Unispace.Path.{slash, segments, bad_component}
use bedrock_stack.Unispace.Path.Components.{IsComponent, IsSelector}
use bedrock_stack.Unispace.Path.Roundtrip.{filter-All}
use bedrock_stack.Caps.{Cap, max_cap_path_len}
use bedrock_stack.Caps.Validate.{
  validate_cap, path_refused, method_refused, method_part, segment_refused,
}
use bedrock_stack.Caps.Lookup.Agree.{IsCanonical}

piece_of_segment : (w : Str) → segment_refused w ≡ false → contains slash w ≡ false → IsComponent w
unfolding segment_refused bad_component
piece_of_segment [] h k = cc
piece_of_segment (x ∷ w) h k = (((λ e. cc), k), ground arith)

pieces_of_segments :
    (ws : List Str)
    → All (λ w. segment_refused w ≡ false) ws
    → All (λ w. contains slash w ≡ false) ws
    → All IsComponent ws
pieces_of_segments [] h k = tt
pieces_of_segments (w ∷ ws) h k = (piece_of_segment w h.0 k.0, pieces_of_segments ws h.1 k.1)

plain : (ws : List Str) → All IsComponent ws → All (IsPiece slash) ws
plain [] a = tt
plain (w ∷ ws) a = (a.0.0, plain ws a.1)

-- The parts of a path that passes.
path_parts : (p : Str) → path_refused p ≡ false → IsCanonical p × All IsComponent (segments p)
unfolding path_refused
path_parts [] h = unfold segments split join in (refl, tt)
path_parts (x ∷ p) h =
    let all =
      pieces_of_segments (split slash (x ∷ p)) (All-of_any-false segment_refused _ (ground arith))
        (All-split slash (x ∷ p)) in
    let e : segments (x ∷ p) ≡ split slash (x ∷ p) =
      unfold segments in filter-All _ (plain _ all) in
    (rw e (join-split slash (x ∷ p)), rw e all)

method_parts : (m : Option Str) → method_part m ≡ false → IsSelector m
unfolding method_refused
method_parts none h = tt
method_parts (some []) h = cc
method_parts (some (x ∷ m)) h = ((λ e. cc), ground arith)

-- A capability that `validate_cap` accepts has a path of at most 256 bytes that is what its segments
-- join to, each of them a component that the path parser accepts, and its method, if any, is not
-- empty and holds no `/`.
pub validate_cap-IsCanonical :
    (c : Cap)
    → validate_cap c ≡ ok tt
    → (length c.path ≤ max_cap_path_len)
      × IsCanonical c.path
      × All IsComponent (segments c.path)
      × IsSelector c.method
unfolding validate_cap
validate_cap-IsCanonical c h = elim (Bool-cases (path_refused c.path)) [
  | inl bad ↦ absurd (ground arith)
  | inr fine ↦ elim (Bool-cases (method_part c.method)) [
    | inl bad ↦ absurd (ground arith)
    | inr good ↦
        let p = path_parts c.path fine in (ground arith, p.0, p.1, method_parts c.method good)
  ]
]
