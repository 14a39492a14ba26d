-- ===== src/Tests.antt =====
-- Runs of the model on concrete values, and each theorem at one input.
mod Samples
mod Streams
mod Formats
mod Captures
mod Clocks
mod Queues
mod Sessions
mod Equalizers
mod Media
mod Negotiation
mod Renderings
mod Renders
mod Rounds
