-- ===== src/Requests.antt =====
-- src/messages: how responses are cut into chunks and put together again, and how a request waits
-- for its responses.
pub mod ResponseChunker
pub mod PendingResponse
pub mod PendingRequest
pub mod OngoingRequests
