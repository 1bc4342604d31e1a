-- ===== src/Tests.antt =====
-- Witnesses of the stated properties at concrete inputs, and runs of the model on small inputs.
mod Codecs
mod Hashes
mod Spdy
mod Blobs
mod Layers
mod Pulls
mod Tables
mod Restart
mod Names
mod Bundles
mod Encodings
mod Stored
mod Services
mod Nodes
mod Pods
mod Pulled
