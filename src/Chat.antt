-- ===== src/Chat.antt =====
-- apps/backend/chat: the assistant. The agent's cache of sessions is chat/agent.py.
pub mod Models
pub mod Agent
pub mod Conversations
pub mod Service
