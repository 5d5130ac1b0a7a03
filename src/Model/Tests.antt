-- ===== src/Model/Tests.antt =====
-- internal/model/entry.go: the theorems about level names on concrete values.
