-- ===== src/Tcp.antt =====
-- RpcFramework/rocket/net/tcp: the connection between a socket and the coder. Children hold the
-- connection, and beside it the proofs about it.
pub mod Connection
pub mod Reading
pub mod Serving
pub mod Writing
pub mod Client
pub mod Calling
pub mod Stranded
pub mod Rounds
pub mod Turns
pub mod Closing
pub mod Fragments
pub mod Sessions
pub mod NewConnections
pub mod Losing
pub mod Listening
pub mod RoundTrip
pub mod Tests
