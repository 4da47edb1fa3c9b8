-- ===== src/Llm.antt =====
-- internal/llm: the hourly budget of requests, and the rounds of one conversation with the model.
pub mod Budget
pub mod Converse
pub mod Tests
