-- ===== src/Pipelines/Tiptap.antt =====
-- app/pipelines/tiptap.py: a draft as an editor document. pydantic refuses a text node without text.
pub mod Total
use be25_fin_thanos_meetbowl.Prelude.{ℕ, none, some, List, [], ◌∷◌, ◌++◌, map, null, if◌then◌else◌}
use be25_fin_thanos_meetbowl.Text.{Text, codes, join}
use be25_fin_thanos_meetbowl.Errors.{◌>>=◌, Raises, returned, raised, other}
use be25_fin_thanos_meetbowl.Schemas.Minutes.{
  AgendaItem, ActionItem, MinutesDraft, TiptapNode, TiptapNodes, heading, paragraph, text,
  bullet_list, list_item, end, node,
}
use be25_fin_thanos_meetbowl.Pipelines.Evidence.{if_present}

-- `TiptapNode(type="text", text=text)` with `validate_text_node`.
unfoldable pub text_node : Text → Raises TiptapNode
text_node [] = raised (other (codes "ValidationError"))
text_node (c ∷ s) = returned (text (c ∷ s))

unfoldable pub heading_node : ℕ → Text → Raises TiptapNode
unfolding text_node
heading_node level content = do leaf ← text_node content; returned (heading level (node leaf end))

unfoldable pub paragraph_node : Text → Raises TiptapNode
unfolding text_node
paragraph_node content = do leaf ← text_node content; returned (paragraph (node leaf end))

-- The nodes of a list that is built from left to right.
unfoldable pub collect : List (Raises TiptapNode) → Raises TiptapNodes
collect [] = returned end
collect (m ∷ ms) = do first ← m; rest ← collect ms; returned (node first rest)

unfoldable pub list_item_node : Text → Raises TiptapNode
unfolding paragraph_node
list_item_node content = do inner ← paragraph_node content; returned (list_item (node inner end))

unfoldable pub bullet_list_node : List Text → Raises TiptapNode
unfolding collect list_item_node
bullet_list_node items = do nodes ← collect (map list_item_node items); returned (bullet_list nodes)

-- `details`
unfoldable pub details_of : ActionItem → List Text
details_of item =
    if_present (λ name. (codes "담당: " ++ name) ∷ []) [] item.assignee_name
    ++ elim item.due_date [ none ↦ [] | some date ↦ (codes "기한: " ++ date) ∷ [] ]

unfoldable pub format_action_item : ActionItem → Text
unfolding details_of
format_action_item item =
    let details = details_of item in
    if null details
    then item.content
    else item.content ++ (codes " (" ++ (join (codes ", ") details ++ codes ")"))

unfoldable pub agenda_nodes : List AgendaItem → List (Raises TiptapNode)
unfolding heading_node paragraph_node
agenda_nodes [] = []
agenda_nodes (agenda ∷ items) =
    heading_node 3 agenda.title
    ∷ paragraph_node agenda.discussion
    ∷ (if_present (λ decision. paragraph_node (codes "결정: " ++ decision) ∷ []) [] agenda.decision
        ++ agenda_nodes items)

unfoldable pub agenda_section : List AgendaItem → List (Raises TiptapNode)
unfolding agenda_nodes heading_node
agenda_section [] = []
agenda_section (agenda ∷ items) = heading_node 2 (codes "안건별 논의") ∷ agenda_nodes (agenda ∷ items)

unfoldable pub list_section : Text → List Text → List (Raises TiptapNode)
unfolding heading_node bullet_list_node
list_section title [] = []
list_section title (item ∷ items) = heading_node 2 title ∷ bullet_list_node (item ∷ items) ∷ []

-- `content`
unfoldable pub draft_nodes : MinutesDraft → List (Raises TiptapNode)
unfolding heading_node paragraph_node agenda_section list_section format_action_item
draft_nodes draft =
    heading_node 1 (codes "회의록")
    ∷ heading_node 2 (codes "회의 요약")
    ∷ paragraph_node draft.summary
    ∷ (agenda_section draft.agenda_items
        ++ (list_section (codes "결정사항") draft.decisions
            ++ list_section (codes "후속 조치") (map format_action_item draft.action_items)))

unfoldable pub minutes_draft_to_tiptap : MinutesDraft → Raises TiptapNodes
unfolding collect draft_nodes
minutes_draft_to_tiptap draft = collect (draft_nodes draft)
