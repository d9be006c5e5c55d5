-- ===== src/Households/Service/Dissolving.antt =====
-- What dissolving a household does to its members.
