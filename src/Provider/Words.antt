-- ===== src/Provider/Words.antt =====
-- Lists of scopes in a text, for packages/oauth-provider/src/index.ts: `split(' ').filter(Boolean)` and
-- `scopeSet`.
use wp_auto.Base.{
  ℕ, Bool, true, false, ◌&&◌, ◌||◌, Option, none, some, List, [], ◌∷◌, ◌++◌, ltb, if◌then◌else◌,
  ◌==◌, nat_eq, text_eq, bytes_eq,
}
use wp_auto.Base.Text.{codes}
use wp_auto.Contracts.{
  McpScope, mcp_read, mcp_content_write, mcp_media_write, mcp_taxonomy_write, mcp_seo_write,
}

abbrev pub Word : Type 0
Word = List ℕ

-- A word that is not empty.
abbrev pub kept : Word → List Word → List Word
kept [] ws = ws
kept (c ∷ cs) ws = (c ∷ cs) ∷ ws

abbrev pub push : ℕ → Word × List Word → Word × List Word
push c (w, ws) = if c == b' ' then ([], kept w ws) else (c ∷ w, ws)

-- The first word and the later ones that are not empty.
abbrev pub pieces : List ℕ → Word × List Word
pieces [] = ([], [])
pieces (c ∷ cs) = push c (pieces cs)

abbrev pub words : List ℕ → List Word
words cs = kept (pieces cs).0 (pieces cs).1

abbrev pub scope_word : McpScope → Word
scope_word mcp_read = codes "mcp:read"
scope_word mcp_content_write = codes "mcp:content.write"
scope_word mcp_media_write = codes "mcp:media.write"
scope_word mcp_taxonomy_write = codes "mcp:taxonomy.write"
scope_word mcp_seo_write = codes "mcp:seo.write"

abbrev pub find_scope : Word → List McpScope → Option McpScope
find_scope w [] = none
find_scope w (x ∷ xs) = let rest = find_scope w xs in if scope_word x == w then some x else rest

abbrev pub word_scope : Word → Option McpScope
word_scope w =
    find_scope w
      (mcp_read ∷ mcp_content_write ∷ mcp_media_write ∷ mcp_taxonomy_write ∷ mcp_seo_write ∷ [])

-- The order of texts by their characters.
abbrev pub word_leb : Word → Word → Bool
word_leb [] w = true
word_leb (c ∷ cs) [] = false
word_leb (c ∷ cs) (d ∷ ds) = ltb c d || (c == d && word_leb cs ds)

abbrev pub add_word : Word → List Word → List Word
add_word w [] = w ∷ []
add_word w (v ∷ vs) =
    let rest = add_word w vs in
    if w == v then v ∷ vs else (if word_leb w v then w ∷ v ∷ vs else v ∷ rest)

-- The words of a list once each, in order.
abbrev pub sorted_set : List Word → List Word
sorted_set [] = []
sorted_set (w ∷ ws) = add_word w (sorted_set ws)

abbrev pub joined : List Word → List ℕ
joined [] = []
joined (w ∷ []) = w
joined (w ∷ v ∷ ws) = w ++ (b' ' ∷ joined (v ∷ ws))

-- `[...new Set(value)].sort().join(' ')`
abbrev pub scope_set : List Word → List ℕ
scope_set ws = joined (sorted_set ws)
