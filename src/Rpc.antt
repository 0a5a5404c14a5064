-- ===== src/Rpc.antt =====
-- RpcFramework/rocket/net/rpc: the server's dispatcher, the call's controller, the registry and the
-- client's channel. Children hold one class each, and beside them the proofs about it.
pub mod Errors
pub mod Controller
pub mod Dispatcher
pub mod Dispatch
pub mod Registry
pub mod Channel
pub mod Calls
pub mod Tests
