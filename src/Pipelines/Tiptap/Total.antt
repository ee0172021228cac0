-- ===== src/Pipelines/Tiptap/Total.antt =====
-- Every accepted draft can be shown in the editor.
use be25_fin_thanos_meetbowl.Prelude.{
  ℕ, ◌≡◌, refl, ◌≤◌, true, false, Option, none, some, List, [], ◌∷◌, ◌++◌, map, arith, null, All,
  All-append, length,
}
use be25_fin_thanos_meetbowl.Text.{Text, codes}
use be25_fin_thanos_meetbowl.Errors.{Raises, returned}
use be25_fin_thanos_meetbowl.Schemas.Minutes.{
  node, bullet_list, AgendaItem, ActionItem, MinutesDraft, TiptapNode, TiptapNodes,
}
use be25_fin_thanos_meetbowl.Pipelines.Evidence.{if_present}
use be25_fin_thanos_meetbowl.Pipelines.Quality.{is_meaningful_text}
use be25_fin_thanos_meetbowl.Pipelines.Quality.Accepted.{IsAccepted, IsReadable}
use be25_fin_thanos_meetbowl.Pipelines.Tiptap.{
  heading_node, paragraph_node, collect, list_item_node, bullet_list_node, format_action_item,
  agenda_nodes, agenda_section, list_section, draft_nodes, minutes_draft_to_tiptap,
}

-- It does not raise.
abbrev pub Returns {ℓ} : {A : Type ℓ} → Raises A → Type ℓ
Returns {A = A} m = (a : A) × (m ≡ returned a)

heading_node-Returns :
    (n : ℕ) (content : Text) → null content ≡ false → Returns (heading_node n content)
unfolding heading_node
heading_node-Returns n [] h = cc
heading_node-Returns n (c ∷ s) h = (_, refl)

paragraph_node-Returns : (content : Text) → null content ≡ false → Returns (paragraph_node content)
unfolding paragraph_node
paragraph_node-Returns [] h = cc
paragraph_node-Returns (c ∷ s) h = (_, refl)

list_item_node-Returns : (content : Text) → null content ≡ false → Returns (list_item_node content)
unfolding list_item_node
list_item_node-Returns [] h = cc
list_item_node-Returns (c ∷ s) h = (_, refl)

collect-Returns : (ms : List (Raises TiptapNode)) → All Returns ms → Returns (collect ms)
unfolding collect
collect-Returns [] h = (_, refl)
collect-Returns (m ∷ ms) h =
    let (first, e) = h.0 in
    let (rest, e') = collect-Returns ms h.1 in (node first rest, rw (e, e') refl)

items-Returns :
    (items : List Text) → All (λ s. null s ≡ false) items → All Returns (map list_item_node items)
items-Returns [] h = tt
items-Returns (s ∷ items) h = (list_item_node-Returns s h.0, items-Returns items h.1)

bullet_list_node-Returns :
    (items : List Text) → All (λ s. null s ≡ false) items → Returns (bullet_list_node items)
unfolding bullet_list_node
bullet_list_node-Returns items h =
    let (nodes, e) = collect-Returns (map list_item_node items) (items-Returns items h) in
    (bullet_list nodes, rw e refl)

list_section-Returns :
    (title : Text) (items : List Text)
    → null title ≡ false
    → All (λ s. null s ≡ false) items
    → All Returns (list_section title items)
unfolding list_section
list_section-Returns title [] t h = tt
list_section-Returns title (s ∷ items) t h =
    (heading_node-Returns 2 title t, (bullet_list_node-Returns (s ∷ items) h, tt))

decision-Returns :
    (decision : Option Text)
    → All Returns (if_present (λ d. paragraph_node (codes "결정: " ++ d) ∷ []) [] decision)
decision-Returns none = tt
decision-Returns (some []) = tt
decision-Returns (some (c ∷ s)) = (paragraph_node-Returns (codes "결정: " ++ c ∷ s) refl, tt)

long_present : (s : Text) → 20 ≤ length s → null s ≡ false
long_present [] h = absurd (omega (arith, h))
long_present (c ∷ s) h = refl

agenda_nodes-Returns :
    (items : List AgendaItem) → All IsReadable items → All Returns (agenda_nodes items)
unfolding agenda_nodes
agenda_nodes-Returns [] h = tt
agenda_nodes-Returns (agenda ∷ items) h = (
  heading_node-Returns 3 agenda.title h.0.0,
  (
    paragraph_node-Returns agenda.discussion (long_present agenda.discussion h.0.1),
    All-append Returns _ _ (decision-Returns agenda.decision) (agenda_nodes-Returns items h.1),
  ),
)

agenda_section-Returns :
    (items : List AgendaItem) → All IsReadable items → All Returns (agenda_section items)
unfolding agenda_section
agenda_section-Returns [] h = tt
agenda_section-Returns (agenda ∷ items) h =
    (heading_node-Returns 2 (codes "안건별 논의") refl, agenda_nodes-Returns (agenda ∷ items) h)

meaningful_present : (s : Text) → is_meaningful_text s ≡ true → null s ≡ false
unfolding is_meaningful_text
meaningful_present s h = ground arith

decisions_present :
    (items : List Text)
    → All (λ s. is_meaningful_text s ≡ true) items
    → All (λ s. null s ≡ false) items
decisions_present [] h = tt
decisions_present (s ∷ items) h = (meaningful_present s h.0, decisions_present items h.1)

format_action_item-present :
    (item : ActionItem) → null item.content ≡ false → null (format_action_item item) ≡ false
unfolding format_action_item
format_action_item-present item h = ground arith

actions_present :
    (items : List ActionItem)
    → All (λ item. is_meaningful_text item.content ≡ true) items
    → All (λ s. null s ≡ false) (map format_action_item items)
actions_present [] h = tt
actions_present (item ∷ items) h = (
  format_action_item-present item (meaningful_present item.content h.0),
  actions_present items h.1,
)

draft_nodes-Returns :
    (casefold : Text → Text) (raw_transcript : Text) (draft : MinutesDraft)
    → IsAccepted casefold raw_transcript draft
    → All Returns (draft_nodes draft)
unfolding draft_nodes
draft_nodes-Returns casefold raw_transcript draft a = (
  heading_node-Returns 1 (codes "회의록") refl,
  (
    heading_node-Returns 2 (codes "회의 요약") refl,
    (
      paragraph_node-Returns draft.summary (long_present draft.summary a.summarised),
      All-append Returns _ _ (agenda_section-Returns draft.agenda_items a.readable) (
          All-append Returns _ _
            (list_section-Returns (codes "결정사항") draft.decisions refl
              (decisions_present draft.decisions a.decisions_meaningful))
            (list_section-Returns (codes "후속 조치") (map format_action_item draft.action_items) refl
              (actions_present draft.action_items a.actions_meaningful))),
    ),
  ),
)

-- A draft that is accepted for some transcript is converted without an error: no node of the document is
-- a text node without text.
pub minutes_draft_to_tiptap-Returns :
    (casefold : Text → Text) (raw_transcript : Text) (draft : MinutesDraft)
    → IsAccepted casefold raw_transcript draft
    → (nodes : TiptapNodes) × (minutes_draft_to_tiptap draft ≡ returned nodes)
unfolding minutes_draft_to_tiptap
minutes_draft_to_tiptap-Returns casefold raw_transcript draft a =
    collect-Returns (draft_nodes draft) (draft_nodes-Returns casefold raw_transcript draft a)
