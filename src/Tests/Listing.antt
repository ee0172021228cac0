-- ===== src/Tests/Listing.antt =====
-- Two memos on two days, one of them in two chunks.
use be25_fin_thanos_meetbowl.Prelude.{
  ℕ, true, false, none, some, List, [], ◌∷◌, nat_eq, list_eq, option_eq, pair_eq, length, take,
  select, elements,
}
use be25_fin_thanos_meetbowl.Text.{Text, codes}
use be25_fin_thanos_meetbowl.Rag.QdrantChat.{
  Point, Server, query_points, scroll_points, parse_day_bound, recent_documents,
}
use be25_fin_thanos_meetbowl.Rag.QdrantChat.Listing.{IsListing, recent_documents-IsListing}
use be25_fin_thanos_meetbowl.Tests.Access.{engine}

abbrev chunk : Text → Text → Point
chunk source_id created_at = record {
  payload = record {
    source_type = some (codes "PERSONAL_MEMO");
    source_id = some source_id;
    document_id = none;
    title = some (codes "memo");
    snippet = none;
    content = some (codes "text");
    created_at = some created_at;
    chunk_index = none;
  };
  score = 1;
}

abbrev server : Server
server = record {
  Vector = ℕ;
  Sparse = ℕ;
  points_of = λ body. some [];
  encode = λ t. 0;
  parse_uuid = λ t. some (length t);
  uuid_text = λ n. n ∷ [];
  fromisoformat = λ t. some (λ zone. length t);
  top_score = 9;
}

abbrev points : List Point
points =
    chunk (codes "a") (codes "12")
    ∷ chunk (codes "ab") (codes "123")
    ∷ chunk (codes "a") (codes "12")
    ∷ []

recent_documents-IsListing_example :
    IsListing server points
      (parse_day_bound server (some (codes "1")) false)
      (parse_day_bound server none true)
      (recent_documents server points (some (codes "1")) none)
recent_documents-IsListing_example =
    recent_documents-IsListing server points (some (codes "1")) none

-- A server that has these points and filters them.
abbrev view : Point → engine.Point
view p = λ key. elements p.payload.source_id

abbrev filtering : Server
filtering = record server {
  points_of = λ body. elim body [
    | query_points vector sparse filter prefetch limit ↦ none
    | scroll_points filter limit ↦
        some (take limit (select (λ p. engine.accepts filter (view p)) points))
  ];
}
