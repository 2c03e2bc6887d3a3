-- ===== src/Ai/Transform/Content.antt =====
-- The loops over content blocks, whose result stays nil until something changes, against plain
-- recursion over the blocks.
use attention.Prelude.{
  ◌≡◌, refl, sym, subst, ◌∙◌, ap, String, Bool, true, false, ◌&&◌, ◌==◌, Bool-cases, inl, inr,
  if◌then◌else◌, List, [], ◌∷◌, ◌++◌, Option, none, some, All, append_assoc, append-nil, arith,
}
use attention.Ai.Types.{ContentBlock, is_image, is_text, text_block}
use attention.Ai.Transform.{
  Rewrite, kept, dropped, replaced, apply_rewrite, or_same, image_rewrite, was_placeholder,
  replace_loop, replace_images,
}

-- What a block becomes.
abbrev pub outcome : ContentBlock → Rewrite → List ContentBlock
outcome b kept = b ∷ []
outcome b dropped = []
outcome b (replaced c) = c ∷ []

apply_rewrite-or_same :
    (result : Option (List ContentBlock)) (before : List ContentBlock) (b : ContentBlock)
    (w : Rewrite)
    → or_same (apply_rewrite result before b w) (before ++ b ∷ [])
      ≡ or_same result before ++ outcome b w
unfolding apply_rewrite
apply_rewrite-or_same none before b kept = refl
apply_rewrite-or_same none before b dropped = sym (append-nil before)
apply_rewrite-or_same none before b (replaced c) = refl
apply_rewrite-or_same (some r) before b kept = refl
apply_rewrite-or_same (some r) before b dropped = sym (append-nil r)
apply_rewrite-or_same (some r) before b (replaced c) = refl

-- A description without the loop's slices: an image becomes the placeholder, and disappears where a
-- placeholder stands before it already, its own or the text of a block that was there.
unfoldable pub collapse_images :
    (placeholder : String) → (shown : Bool) → List ContentBlock → List ContentBlock
collapse_images placeholder shown [] = []
collapse_images placeholder shown (b ∷ bs) =
    let behind_image = collapse_images placeholder true bs in
    let behind_other =
      collapse_images placeholder (is_text b.block_type && b.text == placeholder) bs in
    if is_image b.block_type
    then (if shown then behind_image else text_block placeholder ∷ behind_image)
    else b ∷ behind_other

collapse_images-cons :
    (placeholder : String) (shown : Bool) (b : ContentBlock) (bs : List ContentBlock)
    → outcome b (image_rewrite placeholder shown b)
        ++ collapse_images placeholder (was_placeholder placeholder b) bs
      ≡ collapse_images placeholder shown (b ∷ bs)
unfolding collapse_images image_rewrite was_placeholder
collapse_images-cons placeholder true b bs = elim (Bool-cases (is_image b.block_type)) [
  | inl h ↦ rw h refl
  | inr h ↦ rw h refl
]
collapse_images-cons placeholder false b bs = elim (Bool-cases (is_image b.block_type)) [
  | inl h ↦ rw h refl
  | inr h ↦ rw h refl
]

replace_loop-collapse_images :
    (placeholder : String) (previous : Bool) (result : Option (List ContentBlock))
    (before content : List ContentBlock)
    → or_same (replace_loop placeholder previous result before content) (before ++ content)
      ≡ or_same result before ++ collapse_images placeholder previous content
unfolding replace_loop collapse_images
replace_loop-collapse_images placeholder previous none before [] = refl
replace_loop-collapse_images placeholder previous (some r) before [] = sym (append-nil r)
replace_loop-collapse_images placeholder previous result before (b ∷ bs) =
    let w = image_rewrite placeholder previous b in
    let next = was_placeholder placeholder b in
    let result' = apply_rewrite result before b w in
    ap (or_same (replace_loop placeholder next result' (before ++ b ∷ []) bs))
      (sym (append_assoc before (b ∷ []) bs))
    ∙ replace_loop-collapse_images placeholder next result' (before ++ b ∷ []) bs
    ∙ ap (λ x. x ++ collapse_images placeholder next bs) (apply_rewrite-or_same result before b w)
    ∙ append_assoc (or_same result before) (outcome b w) (collapse_images placeholder next bs)
    ∙ ap (λ x. or_same result before ++ x) (collapse_images-cons placeholder previous b bs)

abbrev pub IsImageless : List ContentBlock → Type 0
IsImageless = All λ b. is_image b.block_type ≡ false

collapse_images-IsImageless :
    (placeholder : String) (previous : Bool) (content : List ContentBlock)
    → IsImageless (collapse_images placeholder previous content)
unfolding collapse_images text_block is_image
collapse_images-IsImageless placeholder previous [] = tt
collapse_images-IsImageless placeholder previous (b ∷ bs) = ground (
  arith,
  collapse_images-IsImageless placeholder true bs,
  collapse_images-IsImageless placeholder (is_text b.block_type && b.text == placeholder) bs,
)

-- Replacing images leaves no image block, and is the plain recursion in which each image becomes the
-- placeholder, and disappears where the block before it is an image or has the placeholder's text.
pub replace_images-IsImageless :
    (placeholder : String) (content : List ContentBlock)
    → (replace_images placeholder content ≡ collapse_images placeholder false content)
      × IsImageless (replace_images placeholder content)
unfolding replace_images
replace_images-IsImageless placeholder content =
    let e = replace_loop-collapse_images placeholder false none [] content in
    (e, subst IsImageless (sym e) (collapse_images-IsImageless placeholder false content))
