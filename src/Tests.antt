-- ===== src/Tests.antt =====
-- Runs of the model on small states, and the theorems at inputs that meet their hypotheses.
mod Graph
mod Edges
mod Nodes
mod Accounts
mod Workspaces
mod Documents
mod Upload
mod Sockets
mod Requests
mod Served
