-- ===== src/Checkout/Completion.antt =====
-- What a checkout that succeeds leaves of its sale.
