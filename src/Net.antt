-- ===== src/Net.antt =====
-- src/net: buffers, connections and the protocol on top of them.
pub mod Acceptor
pub mod Buffer
pub mod TcpConnection
pub mod HttpRequest
pub mod HttpContext
pub mod HttpResponse
pub mod HttpServer
pub mod Connector
pub mod InetAddress
pub mod Socket
pub mod TcpServer
pub mod TcpClient
