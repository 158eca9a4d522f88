-- ===== src/VectorStore/ContentHash.antt =====
-- pkg/vectorstore/memory/memory.go: the hash of what a document holds.
use aixgo.Common.{none, some}
use aixgo.Common.{◌∷◌}
use aixgo.Common as Lists
use Prim.Native.String.{String, ◌++◌}
use aixgo.VectorStore.{Floats, Document, Formats}
use aixgo.VectorStore.Documents.{content_text}

module _ (f : Floats) (formats : Formats f) where
  unfoldable pub print_vector : Lists.List f.F → String
  print_vector Lists.[] = ""
  print_vector (x ∷ xs) = formats.fixed x ++ print_vector xs

  unfoldable pub calculate_content_hash : Document f → String
  unfolding content_text print_vector
  calculate_content_hash doc = formats.hex_sha256 (
      content_text f formats doc.content
      ++ elim doc.embedding [ none ↦ "" | some e ↦ print_vector e.vector ])
