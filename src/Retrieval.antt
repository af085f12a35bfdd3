-- ===== src/Retrieval.antt =====
-- The retrieval of an analysis' context (finiexragengine/core/rag, types/article_types.py): articles
-- with their distance to the query, ranked, deduplicated and capped.
pub mod Corpus
pub mod Retriever
