-- ===== src/Projection/Payloads/Handlers.antt =====
-- indexer/src/indexer.ts, the handlers: no value of a routed event is refused for its type.
