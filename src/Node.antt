-- ===== src/Node.antt =====
-- The node, node/src: the chain specifications that it starts a chain from.
pub mod ChainSpec
