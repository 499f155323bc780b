-- ===== src/SymbolGraph.antt =====
-- tools/src/cmd_pipeline/symbol_graph.rs: the graphs of symbols behind the diagrams. Petgraph is
-- what is taken of the petgraph crate, Named the graph with symbol ids for nodes, Nodes and Edges
-- the sets of symbols and of edges that graphs share, Propagate the copy of a part into new sets.
pub mod Petgraph
pub mod Named
pub mod Lambda
pub mod Badges
pub mod Nodes
pub mod Edges
pub mod Propagate
mod Tests
