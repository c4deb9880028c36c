-- ===== src/Virtinjectd.antt =====
-- virtinjectd: the libvirt RPC proxy (virtinjectd/).
pub mod Uint32
pub mod Xdr
pub mod Protocol
pub mod Hook
pub mod Proxy
pub mod Command
mod WireExamples
mod HookExamples
mod ProxyExamples
mod SessionExamples
mod ConnectionExamples
mod CommandExamples
